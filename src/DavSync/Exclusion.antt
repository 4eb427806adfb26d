-- ===== src/DavSync/Exclusion.antt =====
-- internal/davsync/runner.go: `acquire` and `release` under any interleaving of scheduled and
-- manual runs.
use tidy_dav.Prelude.{
  ℕ, ◌+◌, ◌-◌, ◌≤◌, ◌≡◌, refl, sym, ap, subst, ◌∙◌, inl, inr, Str, Bool, true, false, List, [], ◌∷◌,
  list_eq, nat_eq, ◌==◌, eq_of_==, Among, arith, if◌then◌else◌, Bool-cases,
}
use tidy_dav.Prelude.Dict
use tidy_dav.DavSync.{Running, is_running, acquire, release}

-- The map of the runner, and the jobs whose runs are under way, once for each run.
pub record Flights : Type 0 where
  pub running : Running
  pub flights : List Str

-- A run that has ended leaves the list.
unfoldable pub without : Str → List Str → List Str
without id [] = []
without id (j ∷ js) = let rest = without id js in if id == j then js else j ∷ rest

abbrev pub count : Str → List Str → ℕ
count id [] = 0
count id (j ∷ js) = (if id == j then 1 else 0) + count id js

-- What the goroutines of the scheduler and of the handlers do with the runner, in any order.
pub data Step : Flights → Flights → Type 0 where
  begin :
      (id : Str) (s : Flights)
      → (acquire id s.running).0 ≡ true
      → Step s (record { running = (acquire id s.running).1; flights = id ∷ s.flights })
  refuse : (id : Str) (s : Flights) → (acquire id s.running).0 ≡ false → Step s s
  end :
      (id : Str) (s : Flights)
      → Among id s.flights
      → Step s (record { running = release id s.running; flights = without id s.flights })

pub data Reachable : Flights → Type 0 where
  new : Reachable (record { running = []; flights = [] })
  after : (s t : Flights) → Reachable s → Step s t → Reachable t

-- A job is in flight as often as the runner has it as running, which is once or not at all.
abbrev pub IsExclusive : Flights → Type 0
IsExclusive s = (id : Str) → count id s.flights ≡ (if is_running id s.running then 1 else 0)

count-without :
    (j id : Str) (xs : List Str)
    → count j (without id xs) ≡ (if j == id then count j xs - 1 else count j xs)
unfolding without
count-without j id [] = ground arith
count-without j id (x ∷ xs) = ground (arith, count-without j id xs)

acquire-free : (id : Str) (r : Running) → (acquire id r).0 ≡ true → is_running id r ≡ false
unfolding acquire
acquire-free id r h = ground arith

acquire-takes :
    (id : Str) (r : Running) → is_running id r ≡ false → (acquire id r).1 ≡ Dict.insert id true r
unfolding acquire
acquire-takes id r h = rw (acquire, h) refl

is_running-insert :
    (j id : Str) (r : Running)
    → is_running j (Dict.insert id true r) ≡ (if j == id then true else is_running j r)
is_running-insert j id r = ground (arith, Dict.lookup-insert j id true r)

is_running-erase :
    (j id : Str) (r : Running)
    → is_running j (Dict.erase id r) ≡ (if j == id then false else is_running j r)
is_running-erase j id r = ground (arith, Dict.lookup-erase j id r)

begin_count :
    (j id : Str) (js : List Str) (b : Bool)
    → count id js ≡ 0
    → count j js ≡ (if b then 1 else 0)
    → (if j == id then 1 else 0) + count j js ≡ (if (if j == id then true else b) then 1 else 0)
begin_count j id js b own other = elim (Bool-cases (j == id)) [
  | inl t ↦ rw t (ap (λ n. 1 + n) (ap (λ k. count k js) (eq_of_== j id t) ∙ own))
  | inr f ↦ rw f (omega (arith, other))
]

end_count :
    {n : ℕ} (same b : Bool)
    → n ≡ (if b then 1 else 0)
    → (if same then n - 1 else n) ≡ (if (if same then false else b) then 1 else 0)
end_count true true h = omega (arith, h)
end_count true false h = omega (arith, h)
end_count false b h = h

acquire-IsExclusive :
    (id : Str) (s : Flights)
    → (acquire id s.running).0 ≡ true
    → IsExclusive s
    → IsExclusive (record { running = (acquire id s.running).1; flights = id ∷ s.flights })
acquire-IsExclusive id s free h j =
    let idle : is_running id s.running ≡ false = acquire-free id s.running free in
    let own : count id s.flights ≡ 0 = h id ∙ ap (λ b. if b then 1 else 0) idle in
    rw (acquire-takes id s.running idle, is_running-insert)
      (begin_count j id s.flights (is_running j s.running) own (h j))

release-IsExclusive :
    (id : Str) (s : Flights)
    → IsExclusive s
    → IsExclusive (record { running = release id s.running; flights = without id s.flights })
unfolding release
release-IsExclusive id s h j =
    rw (is_running-erase, count-without) (end_count (j == id) (is_running j s.running) (h j))

Step-IsExclusive : {s t : Flights} → Step s t → IsExclusive s → IsExclusive t
Step-IsExclusive (begin id s free) h = acquire-IsExclusive id s free h
Step-IsExclusive (refuse id s taken) h = h
Step-IsExclusive (end id s a) h = release-IsExclusive id s h

Reachable-IsExclusive : {s : Flights} → Reachable s → IsExclusive s
unfolding Dict.lookup
Reachable-IsExclusive new id = refl
Reachable-IsExclusive (after s t r e) id = Step-IsExclusive e (Reachable-IsExclusive r) id

at_most_one : (b : Bool) → (if b then 1 else 0) ≤ 1
at_most_one true = omega arith
at_most_one false = omega arith

-- However the scheduler and manual runs interleave, two runs of one job are never under way at
-- the same time, and a job that the runner can take is not under way.
pub Reachable-count :
    (s : Flights)
    → Reachable s
    → (id : Str)
    → (count id s.flights ≤ 1) × ((acquire id s.running).0 ≡ true → count id s.flights ≡ 0)
Reachable-count s r id = (
  subst (λ n. n ≤ 1) (sym (Reachable-IsExclusive r id)) (at_most_one (is_running id s.running)),
  λ free.
      Reachable-IsExclusive r id ∙ ap (λ b. if b then 1 else 0) (acquire-free id s.running free),
)
