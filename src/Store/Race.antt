-- ===== src/Store/Race.antt =====
-- Writers that race on one ledger: what the contract of a ledger store gives, for every store.
use miriam.Prelude.{
  ℕ, suc, ◌+◌, ◌<◌, ◌≡◌, refl, String, Bool, true, false, some, List, [], ◌∷◌, if◌then◌else◌, arith,
  eq_iff, str_eq, inl, inr, ◌⊎◌, Bool-cases, sym, ap, ◌∙◌, eq_refl,
}
use mathlib.Core.Path.{subst}
use miriam.Ledger.{Ledger, Result, ok, err, Error, touch}
use miriam.Store.{LedgerStore}

pub Result-cases :
    {A : Type 0} (r : Result A) → ((a : A) × (r ≡ ok a)) ⊎ ((e : Error) × (r ≡ err e))
Result-cases (ok a) = inl (a, refl)
Result-cases (err e) = inr (e, refl)

abbrev is_ok : {A : Type 0} → Result A → Bool
is_ok (ok a) = true
is_ok (err e) = false

module _ {S : Type 0} (store : LedgerStore S) where
  open store use {load, save, save-ok, save-err, load-save, load-save_ne, save_version}

  -- Saves in the order in which they reach the store, whoever makes them.
  unfoldable pub run : List Ledger → S → S
  run [] s = s
  run (l ∷ ls) s = run ls (save l s).1

  -- How many of them commit a ledger of this user.
  unfoldable pub commits : String → List Ledger → S → ℕ
  commits user [] s = 0
  commits user (l ∷ ls) s =
      let rest = commits user ls (save l s).1 in
      if str_eq user l.user_id then (if is_ok (save l s).0 then suc rest else rest) else rest

  -- what one save does to the ledger that a load gives
  abbrev After : String → Ledger → Ledger → S → Type 0
  After user l l₀ s =
      (l₁ : Ledger) × (load user (save l s).1 ≡ ok (some l₁))
      × (l₁.version ≡ (
          if str_eq user l.user_id
          then (if is_ok (save l s).0 then suc l₀.version else l₀.version)
          else l₀.version))

  save-After_same :
      (l l₀ : Ledger) (s : S) → load l.user_id s ≡ ok (some l₀) → After l.user_id l l₀ s
  unfolding touch
  save-After_same l l₀ s held = elim (Result-cases (save l s).0) [
    | inl (l', e) ↦ (
      l',
      load-save l s e,
      rw (eq_refl l.user_id, e)
          (ap (λ (x : Ledger). x.version) (save-ok l s e) ∙ omega (arith, save_version l s e held)),
    )
    | inr (x, e) ↦ (l₀, rw (save-err l s e) held, rw (eq_refl l.user_id, e))
  ]

  save-After :
      (user : String) (l l₀ : Ledger) (s : S) → load user s ≡ ok (some l₀) → After user l l₀ s
  save-After user l l₀ s held = elim (Bool-cases (str_eq user l.user_id)) [
    | inl same ↦
        let e : user ≡ l.user_id = (eq_iff user l.user_id).0 same in
        subst (λ u. After u l l₀ s) (sym e) (save-After_same l l₀ s (rw e at held))
    | inr other ↦
        (l₀, load-save_ne l s user (λ e. cc ((eq_iff user l.user_id).1 e, other)) ∙ held, rw other)
  ]

  -- Over any saves, by any writers, the version of a ledger that the store holds for a user grows
  -- by the number of commits of that user's ledger.
  pub run_version :
      (user : String) (ls : List Ledger) (s : S) {l₀ : Ledger}
      → load user s ≡ ok (some l₀)
      → (l₁ : Ledger) × (load user (run ls s) ≡ ok (some l₁))
        × (l₁.version ≡ l₀.version + commits user ls s)
  unfolding run commits
  run_version user [] s {l₀} held = (l₀, held, omega arith)
  run_version user (l ∷ ls) s {l₀} held =
      let (l₁, held₁, v₁) = save-After user l l₀ s held in
      let (l₂, held₂, v₂) = run_version user ls (save l s).1 {l₀ = l₁} held₁ in
      (l₂, held₂, ground arith)

  -- A writer whose copy has the version that the store held before some saves, at least one of
  -- which committed a ledger of the same user, is refused after them, and its save changes
  -- nothing.
  pub stale_save-IsRefused :
      (mine : Ledger) (ls : List Ledger) (s : S) {l₀ : Ledger}
      → load mine.user_id s ≡ ok (some l₀)
      → mine.version ≡ l₀.version
      → 0 < commits mine.user_id ls s
      → (e : Error) × (save mine (run ls s) ≡ (err e, run ls s))
  stale_save-IsRefused mine ls s {l₀} held same some_commit =
      let (l₁, held₁, v₁) = run_version mine.user_id ls s held in
      elim (Result-cases (save mine (run ls s)).0) [
        | inl (l', e) ↦ absurd (omega (arith, save_version mine (run ls s) e held₁))
        | inr (x, e) ↦ (x, λ i. (e i, save-err mine (run ls s) e i))
      ]
