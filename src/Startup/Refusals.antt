-- ===== src/Startup/Refusals.antt =====
-- hypervisor/src/main.rs: the statuses that `efi_main` returns.
use Prim.Native.String.{String}
use hypervisor_101_in_rust.Prelude.{
  ℕ, ◌≡◌, ◌≢◌, ◌⊎◌, refl, sym, ap, ◌∙◌, List, [], ◌∷◌, inl, inr, arith, length,
}
use hypervisor_101_in_rust.Memory.{Memory}
use hypervisor_101_in_rust.Disk.{
  Status, invalid_parameter, Outcome, done, failed, panicked, RegularFile,
}
use hypervisor_101_in_rust.Disk.Statuses.{Outcome-cases, >>=-eq-failed}
use hypervisor_101_in_rust.Snapshot.{Snapshot}
use hypervisor_101_in_rust.Corpus.{Corpus}
use hypervisor_101_in_rust.Patch.{PatchSet}
use hypervisor_101_in_rust.Startup.{
  Services, GlobalState, load_patches, load_corpus, open_snapshot, new_global_state, get_args,
  Launch, returned, crashed, start_on_all, launch, with_args, efi_main,
}
use hypervisor_101_in_rust.Startup.SnapshotErrors.{SnapshotError, open_snapshot-failed}

-- The first step of `GlobalState::new` that fails, all before it having succeeded.
pub data Refused (u : Services) (snapshot_path patch_path corpus_path : String) (mem : Memory)
    (status : Status) : Type 0 where
  no_mp_services :
      u.open_mp_services ≡ failed status → Refused u snapshot_path patch_path corpus_path mem status
  no_volume :
      u.open_mp_services ≡ done tt
      → u.open_volume ≡ failed status
      → Refused u snapshot_path patch_path corpus_path mem status
  bad_snapshot :
      (volume : ℕ)
      → u.open_mp_services ≡ done tt
      → u.open_volume ≡ done volume
      → open_snapshot u volume snapshot_path mem ≡ failed status
      → SnapshotError u volume snapshot_path status
      → Refused u snapshot_path patch_path corpus_path mem status
  bad_corpus :
      (volume : ℕ) (file : RegularFile) (s : Snapshot) (mem' : Memory)
      → u.open_mp_services ≡ done tt
      → u.open_volume ≡ done volume
      → open_snapshot u volume snapshot_path mem ≡ done (file, s, mem')
      → load_corpus u volume corpus_path s.page_count ≡ failed status
      → Refused u snapshot_path patch_path corpus_path mem status
  bad_patches :
      (volume : ℕ) (file : RegularFile) (s : Snapshot) (mem' : Memory) (corpus : Corpus)
      → u.open_mp_services ≡ done tt
      → u.open_volume ≡ done volume
      → open_snapshot u volume snapshot_path mem ≡ done (file, s, mem')
      → load_corpus u volume corpus_path s.page_count ≡ done corpus
      → load_patches u volume patch_path ≡ failed status
      → Refused u snapshot_path patch_path corpus_path mem status
  no_count :
      (volume : ℕ) (file : RegularFile) (s : Snapshot) (mem' : Memory) (corpus : Corpus)
      (patches : PatchSet)
      → u.open_mp_services ≡ done tt
      → u.open_volume ≡ done volume
      → open_snapshot u volume snapshot_path mem ≡ done (file, s, mem')
      → load_corpus u volume corpus_path s.page_count ≡ done corpus
      → load_patches u volume patch_path ≡ done patches
      → u.enabled_processors ≡ failed status
      → Refused u snapshot_path patch_path corpus_path mem status

new_global_state-Refused :
    (u : Services) (snapshot_path patch_path corpus_path : String) (mem : Memory) {status : Status}
    → new_global_state u snapshot_path patch_path corpus_path mem ≡ failed status
    → Refused u snapshot_path patch_path corpus_path mem status
unfolding new_global_state
new_global_state-Refused u snapshot_path patch_path corpus_path mem did =
    elim (>>=-eq-failed u.open_mp_services _ did) [
      | inl e ↦ no_mp_services e
      | inr (mp, opened, did₁) ↦ elim (>>=-eq-failed u.open_volume _ did₁) [
        | inl e ↦ no_volume opened e
        | inr (volume, v, did₂) ↦
            elim (>>=-eq-failed (open_snapshot u volume snapshot_path mem) _ did₂) [
              | inl e ↦
                  bad_snapshot volume opened v e (open_snapshot-failed u volume snapshot_path mem e)
              | inr ((file, s, mem'), o, did₃) ↦
                  elim (>>=-eq-failed (load_corpus u volume corpus_path s.page_count) _ did₃) [
                    | inl e ↦ bad_corpus volume file s mem' opened v o e
                    | inr (corpus, c, did₄) ↦
                        elim (>>=-eq-failed (load_patches u volume patch_path) _ did₄) [
                          | inl e ↦ bad_patches volume file s mem' corpus opened v o c e
                          | inr (patches, p, did₅) ↦
                              elim (>>=-eq-failed u.enabled_processors _ did₅) [
                                | inl e ↦
                                    no_count volume file s mem' corpus patches opened v o c p e
                                | inr (cores, n, e) ↦ cc
                              ]
                        ]
                  ]
            ]
      ]
    ]

-- The arguments are the name of the program and three paths, or `efi_main` returns.
with_args-cases :
    (u : Services) (args : List String) (mem : Memory)
    → ((length args ≢ 4) × (with_args u args mem ≡ returned invalid_parameter))
      ⊎ ((name : String) × (snapshot_path : String) × (patch_path : String) × (corpus_path : String)
          × (args ≡ name ∷ snapshot_path ∷ patch_path ∷ corpus_path ∷ [])
          × (with_args u args mem
              ≡ launch u (new_global_state u snapshot_path patch_path corpus_path mem)))
unfolding with_args
with_args-cases u [] mem = inl (λ e. omega arith, refl)
with_args-cases u (a ∷ []) mem = inl (λ e. omega arith, refl)
with_args-cases u (a ∷ b ∷ []) mem = inl (λ e. omega arith, refl)
with_args-cases u (a ∷ b ∷ c ∷ []) mem = inl (λ e. omega arith, refl)
with_args-cases u (a ∷ b ∷ c ∷ d ∷ []) mem = inr (a, b, c, d, refl, refl)
with_args-cases u (a ∷ b ∷ c ∷ d ∷ e ∷ rest) mem = inl (λ f. omega arith, refl)

launch-returned :
    (u : Services) (r : Outcome (GlobalState × Memory)) {status : Status}
    → launch u r ≡ returned status
    → r ≡ failed status
unfolding launch start_on_all
launch-returned u (done (global, mem)) e = ground arith
launch-returned u (failed status) e = cc
launch-returned u panicked e = cc

returned-injective : {a b : Status} → returned a ≡ returned b → a ≡ b
returned-injective e = cc

with_args-returned :
    (u : Services) (args : List String) (mem : Memory) {status : Status}
    → with_args u args mem ≡ returned status
    → ((length args ≢ 4) × (status ≡ invalid_parameter))
      ⊎ ((name : String) × (snapshot_path : String) × (patch_path : String) × (corpus_path : String)
          × (args ≡ name ∷ snapshot_path ∷ patch_path ∷ corpus_path ∷ [])
          × Refused u snapshot_path patch_path corpus_path mem status)
with_args-returned u args mem did = elim (with_args-cases u args mem) [
  | inl (wrong, e) ↦ inl (wrong, returned-injective (sym did ∙ e))
  | inr (n, s, p, c, four, e) ↦ inr (
    n,
    s,
    p,
    c,
    four,
    new_global_state-Refused u s p c mem
        (launch-returned u (new_global_state u s p c mem) (sym e ∙ did)),
  )
]

-- If `efi_main` returns at all, the number of arguments was wrong and the status says so, or the
-- status is that of the first step of `GlobalState::new` that failed, which for the snapshot is one
-- of: it cannot be opened, its size is not known or not that of a snapshot, a page cannot be read,
-- or the signature is missing.
pub efi_main-returned :
    (u : Services) (mem : Memory) (status : Status)
    → efi_main u mem ≡ returned status
    → (args : List String) × (get_args u ≡ done args)
      × (((length args ≢ 4) × (status ≡ invalid_parameter))
          ⊎ ((name : String) × (snapshot_path : String) × (patch_path : String)
              × (corpus_path : String) × (args
                  ≡ name ∷ snapshot_path ∷ patch_path ∷ corpus_path ∷ [])
              × Refused u snapshot_path patch_path corpus_path mem status))
unfolding efi_main
efi_main-returned u mem status did = elim (Outcome-cases (get_args u)) [
  | inl (args, e) ↦ (args, e, with_args-returned u args mem (ap of_args (sym e) ∙ did))
  | inr (inl (st, e)) ↦
      let crash : crashed ≡ returned status = ap of_args (sym e) ∙ did in absurd (cc)
  | inr (inr e) ↦ let crash : crashed ≡ returned status = ap of_args (sym e) ∙ did in absurd (cc)
]
  where
    of_args : Outcome (List String) → Launch
    of_args r = elim r [
      | done args ↦ with_args u args mem
      | failed st ↦ crashed
      | panicked ↦ crashed
    ]
