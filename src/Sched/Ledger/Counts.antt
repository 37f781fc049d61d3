-- ===== src/Sched/Ledger/Counts.antt =====
-- What a new ledger counts (newLedger and charge, internal/sched/ledger.go), against the runs themselves.
use mathlib.Core.List.{foldl}
use mathlib.Core.Path.{subst}
use distributed_test_runner.Base.{
  ℕ, suc, ◌↔◌, true, false, sym, ◌+◌, ◌≡◌, refl, ◌∙◌, String, Bool, ◌&&◌, ◌==◌, eq_iff, List, [],
  ◌∷◌, map, if◌then◌else◌, arith, length, select, Bool-cases, inl, inr, length-select-append_one,
}
use distributed_test_runner.Base.Dict.{lookup, lookup-insert}
use distributed_test_runner.Model.State.{in_flight}
use distributed_test_runner.Model.Entities.{Run}
use distributed_test_runner.Config.Types.{QuotaRule, Catalog}
use distributed_test_runner.Backend.{NodeInfo}
use distributed_test_runner.Sched.Ledger.Meaning.{IsBusy, IsCounted, in_flight_iff, counts_iff}
use distributed_test_runner.Sched.Ledger.{
  Ledger, held, flight_of, charge, charge_in_flight, enter, counts, count, new_ledger,
}

-- The runs that hold a slot for a user.
abbrev pub holds_for : String → Run → Bool
holds_for user r = in_flight r.state && r.user == user

-- The runs that hold a slot that the rule counts for a user.
abbrev pub holds_under : Catalog → QuotaRule → String → Run → Bool
holds_under c q user r = in_flight r.state && counts c q user (flight_of c r)

held-charge :
    (l : Ledger) (r : Run) (user : String)
    → held (charge l r) user ≡ (if r.user == user then held l user + 1 else held l user)
unfolding held charge
held-charge l r user =
    ground (arith, eq_iff r.user user, lookup-insert r.user user (held l r.user + 1) l.by_user)

count-charge_any :
    (l : Ledger) (r : Run) (q : QuotaRule) (user : String)
    → count (charge l r) q user
      ≡ (if counts l.cat q user (flight_of l.cat r) then count l q user + 1 else count l q user)
unfolding count charge
count-charge_any l r q user =
    ground (arith, length-select-append_one (counts l.cat q user) (flight_of l.cat r) l.in_flight)

cat-charge_any : (l : Ledger) (r : Run) → (charge l r).cat ≡ l.cat
unfolding charge
cat-charge_any l r = refl

held-charge_all :
    (user : String) (rs : List Run) (l : Ledger)
    → held (foldl charge_in_flight l rs) user ≡ length (select (holds_for user) rs) + held l user
unfolding select
held-charge_all user [] l = omega arith
held-charge_all user (r ∷ rs) l =
    let ih = held-charge_all user rs (charge_in_flight l r) in
    ground (arith, ih, held-charge l r user)

count-charge_all :
    (c : Catalog) (q : QuotaRule) (user : String) (rs : List Run) (l : Ledger)
    → l.cat ≡ c
    → count (foldl charge_in_flight l rs) q user
      ≡ length (select (holds_under c q user) rs) + count l q user
unfolding select
count-charge_all c q user [] l same = omega arith
count-charge_all c q user (r ∷ rs) l same = elim (Bool-cases (in_flight r.state)) [
  | inl busy ↦
      let ih = count-charge_all c q user rs (charge l r) (cat-charge_any l r ∙ same) in
      let step = rw same at (count-charge_any l r q user) in ground (arith, ih, step)
  | inr idle ↦ rw idle (count-charge_all c q user rs l same)
]

abbrev empty_ledger : Catalog → List NodeInfo → Ledger
empty_ledger c inventory = record {
  cat = c;
  nodes = map (enter c) inventory;
  by_user = [];
  in_flight = [];
}

empty_ledger-zero :
    (c : Catalog) (inventory : List NodeInfo) (q : QuotaRule) (user : String)
    → (held (empty_ledger c inventory) user ≡ 0) × (count (empty_ledger c inventory) q user ≡ 0)
unfolding held count lookup select
empty_ledger-zero c inventory q user = (refl, refl)

-- So many elements of the list have the property.
pub data Numbers {A : Type 0} (P : A → Type 0) : List A → ℕ → Type 0 where
  at_end : Numbers P [] 0
  counted : {x : A} {xs : List A} {n : ℕ} → P x → Numbers P xs n → Numbers P (x ∷ xs) (suc n)
  passed_over : {x : A} {xs : List A} {n : ℕ} → ¬ P x → Numbers P xs n → Numbers P (x ∷ xs) n

absurd_test : (b : Bool) → b ≡ false → b ≡ true → ⊥
absurd_test b f t = cc

Numbers-select :
    {A : Type 0} (p : A → Bool) (P : A → Type 0)
    → ((x : A) → (p x ≡ true) ↔ P x)
    → (xs : List A) → Numbers P xs (length (select p xs))
unfolding select
Numbers-select p P same [] = at_end
Numbers-select p P same (x ∷ xs) = elim (Bool-cases (p x)) [
  | inl h ↦ rw (h, select) (counted ((same x).0 h) (Numbers-select p P same xs))
  | inr h ↦
      rw (h, select)
        (passed_over (λ y. absurd_test (p x) h ((same x).1 y)) (Numbers-select p P same xs))
]

-- The run holds a slot of the user.
abbrev pub IsHeldBy : String → Run → Type 0
IsHeldBy user r = IsBusy r × (r.user ≡ user)

holds_for_iff : (user : String) (r : Run) → (holds_for user r ≡ true) ↔ IsHeldBy user r
holds_for_iff user r = (
  (λ h. ((in_flight_iff r).0 (ground (arith, h)), (eq_iff r.user user).0 (ground (arith, h)))),
  (λ (busy, mine). rw ((in_flight_iff r).1 busy) ((eq_iff r.user user).1 mine)),
)

holds_under_iff :
    (c : Catalog) (q : QuotaRule) (user : String) (r : Run)
    → (holds_under c q user r ≡ true) ↔ IsCounted c q user r
holds_under_iff c q user r =
    let both = counts_iff c q user r in
    (
      (λ h.
          let (scope, account) = both.0 (ground (arith, h)) in
          ((in_flight_iff r).0 (ground (arith, h)), scope, account)),
      (λ (busy, scope, account). rw ((in_flight_iff r).1 busy) (both.1 (scope, account))),
    )

-- A new ledger counts the runs as they are. A user holds as many slots as dispatched or running runs
-- are theirs. A rule counts for a user the dispatched and running runs that are in its scope (by the
-- pools that a run counts in, or by its node) and on its account (the user's own runs or, for an
-- aggregate rule, those of its group's members or of everyone).
pub new_ledger-AreCounted :
    (c : Catalog) (inventory : List NodeInfo) (rs : List Run) (q : QuotaRule) (user : String)
    → Numbers (IsHeldBy user) rs (held (new_ledger c inventory rs) user)
      × Numbers (IsCounted c q user) rs (count (new_ledger c inventory rs) q user)
unfolding new_ledger
new_ledger-AreCounted c inventory rs q user =
    let l = empty_ledger c inventory in
    let (h, k) = empty_ledger-zero c inventory q user in
    let mine : held (new_ledger c inventory rs) user ≡ length (select (holds_for user) rs) =
      omega (arith, held-charge_all user rs l, h) in
    let seen : count (new_ledger c inventory rs) q user
        ≡ length (select (holds_under c q user) rs) =
      omega (arith, count-charge_all c q user rs l refl, k) in
    (
      subst (Numbers (IsHeldBy user) rs) (sym mine)
          (Numbers-select (holds_for user) (IsHeldBy user) (holds_for_iff user) rs),
      subst (Numbers (IsCounted c q user) rs) (sym seen) (
          Numbers-select (holds_under c q user) (IsCounted c q user) (holds_under_iff c q user) rs),
    )
