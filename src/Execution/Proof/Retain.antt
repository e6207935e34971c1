-- ===== src/Execution/Proof/Retain.antt =====
-- `retain_requested_storage` of proof.rs: the entries of a response that are passed on.
use helios_bsc.Prelude.{
  ◌≡◌, refl, ap, ◌∙◌, inl, inr, true, false, not, Option, none, some, List, [], ◌∷◌, Bytes,
  bytes_eq, bytes_eq→eq, ◌&&◌, if◌then◌else◌, Bool-cases, Option-cases, arith,
}
use helios_bsc.Types.External.{External}
use helios_bsc.Types.Checkpoint.{seen_before}
use helios_bsc.Execution.Proof.{StorageProofEntry, EthAccountProof, slot_of_key, is_slot}

-- A slot is put in front of a list, where there is one.
abbrev push_some : Option Bytes → List Bytes → List Bytes
push_some none slots = slots
push_some (some slot) slots = slot ∷ slots

module _ (x : External) where
  -- `filter_map`
  unfoldable pub slots_of_keys : List Bytes → List Bytes
  slots_of_keys [] = []
  slots_of_keys (k ∷ keys) = push_some (slot_of_key x k) (slots_of_keys keys)

  -- The code marks the first position of a slot in `want`; the model keeps the slots that are marked.
  unfoldable pub retain_from :
      List Bytes → List Bytes → List StorageProofEntry → List StorageProofEntry
  retain_from want taken [] = []
  retain_from want taken (e ∷ entries) = elim (slot_of_key x e.key) [
    | none ↦ retain_from want taken entries
    | some slot ↦ elim (seen_before want slot && not (seen_before taken slot)) [
      | true ↦ e ∷ retain_from want (slot ∷ taken) entries
      | false ↦ retain_from want taken entries
    ]
  ]

  unfoldable pub retain_requested_storage : EthAccountProof → List Bytes → EthAccountProof
  retain_requested_storage proof [] = record proof { storage_proof = [] }
  retain_requested_storage proof (k ∷ keys) = record proof {
    storage_proof = retain_from (slots_of_keys (k ∷ keys)) [] proof.storage_proof;
  }

  -- The first entry whose key denotes the slot.
  unfoldable pub first_entry : Bytes → List StorageProofEntry → Option StorageProofEntry
  first_entry slot [] = none
  first_entry slot (e ∷ entries) =
      let later = first_entry slot entries in
      if is_slot slot (slot_of_key x e.key) then some e else later

  -- Each entry denotes a slot that is requested, and none that is taken or denoted before.
  abbrev pub OncePerSlot : List Bytes → List Bytes → List StorageProofEntry → Type 0
  OncePerSlot want taken [] = Unit
  OncePerSlot want taken (e ∷ entries) =
      (slot : Bytes) × (slot_of_key x e.key ≡ some slot)
      × (seen_before want slot ≡ true)
      × (seen_before taken slot ≡ false)
      × OncePerSlot want (slot ∷ taken) entries

  retain_from-OncePerSlot :
      (want taken : List Bytes) (entries : List StorageProofEntry)
      → OncePerSlot want taken (retain_from want taken entries)
  unfolding retain_from
  retain_from-OncePerSlot want taken [] = tt
  retain_from-OncePerSlot want taken (e ∷ entries) = elim (Option-cases (slot_of_key x e.key)) [
    | inl nowhere ↦ rw (nowhere, retain_from) (retain_from-OncePerSlot want taken entries)
    | inr (slot, at) ↦ elim (Bool-cases (seen_before want slot && not (seen_before taken slot))) [
      | inl kept ↦
          rw (at, retain_from, kept)
            (
              slot,
              at,
              ground arith,
              ground arith,
              retain_from-OncePerSlot want (slot ∷ taken) entries,
            )
      | inr dropped ↦ rw (at, retain_from, dropped) (retain_from-OncePerSlot want taken entries)
    ]
  ]

  retain_from-first_entry :
      (want taken : List Bytes) (slot : Bytes) (entries : List StorageProofEntry)
      → seen_before want slot ≡ true
      → seen_before taken slot ≡ false
      → first_entry slot (retain_from want taken entries) ≡ first_entry slot entries
  unfolding retain_from first_entry seen_before
  retain_from-first_entry want taken slot [] asked free = refl
  retain_from-first_entry want taken slot (e ∷ entries) asked free =
      elim (Option-cases (slot_of_key x e.key)) [
        | inl nowhere ↦
            rw (nowhere, retain_from, first_entry)
              (retain_from-first_entry want taken slot entries asked free)
        | inr (s, at) ↦ elim (Bool-cases (seen_before want s && not (seen_before taken s))) [
          | inl kept ↦ elim (Bool-cases (bytes_eq s slot)) [
            | inl same ↦ rw (at, kept, retain_from, first_entry, at, same) refl
            | inr other ↦
                rw (at, kept, retain_from, first_entry, at, other)
                  (retain_from-first_entry want (s ∷ taken) slot entries asked (ground arith))
          ]
          | inr dropped ↦ elim (Bool-cases (bytes_eq s slot)) [
            | inl same ↦ absurd (marked s (bytes_eq→eq s slot same) dropped)
            | inr other ↦
                rw (at, dropped, retain_from, first_entry, other)
                  (retain_from-first_entry want taken slot entries asked free)
          ]
        ]
      ]
    where
      marked :
          (s : Bytes) → s ≡ slot → (seen_before want s && not (seen_before taken s)) ≡ false → ⊥
      marked s same off =
          let asked' : seen_before want s ≡ true = ap (seen_before want) same ∙ asked in
          let free' : seen_before taken s ≡ false = ap (seen_before taken) same ∙ free in
          ground arith

-- What is left of a response: nothing but the storage entries has changed.
pub record Retained (x : External) (proof : EthAccountProof) (keys : List Bytes)
    (proof' : EthAccountProof) : Type 0 where
  pub rest : proof' ≡ record proof { storage_proof = proof'.storage_proof }
  pub once : OncePerSlot x (slots_of_keys x keys) [] proof'.storage_proof
  pub first :
      (slot : Bytes)
      → seen_before (slots_of_keys x keys) slot ≡ true
      → first_entry x slot proof'.storage_proof ≡ first_entry x slot proof.storage_proof

-- retain_requested_storage changes the storage entries only: each entry that is left denotes a slot
-- that a requested key denotes, no two denote the same slot, and for each requested slot the first
-- entry that denotes it is the first one of the response.
pub retain_requested_storage-Retained :
    (x : External) (proof : EthAccountProof) (keys : List Bytes)
    → Retained x proof keys (retain_requested_storage x proof keys)
unfolding retain_requested_storage slots_of_keys seen_before
retain_requested_storage-Retained x proof [] = record {
  rest = refl;
  once = tt;
  first = λ slot asked. cc;
}
retain_requested_storage-Retained x proof (k ∷ keys) = record {
  rest = refl;
  once = retain_from-OncePerSlot x (slots_of_keys x (k ∷ keys)) [] proof.storage_proof;
  first = λ slot asked.
      retain_from-first_entry x (slots_of_keys x (k ∷ keys)) [] slot proof.storage_proof asked refl;
}
