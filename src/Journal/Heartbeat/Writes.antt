-- ===== src/Journal/Heartbeat/Writes.antt =====
-- crates/pact-journal/src/heartbeat.rs: the loops that propose one command for each record found.
use mathlib.Core.Option
use pact.Base.{
  ◌≡◌, refl, sym, ◌∙◌, ap, inl, inr, String, Bool, Option, none, some, List, [], ◌∷◌, ◌==◌,
  String_eq, contains, contains-In, In-contains, In, In-map, In-map_of, In-select, In-select_of,
  Bool-cases, Option-cases, ==_cases, ==_self, ==_false, if◌then◌else◌, select, map,
}
use pact.Base.Map.{Map, Each, lookup}
use pact.Base.Bindings.{IsDistinct, In-lookup, lookup-In_own}
use pact.Types.{DateTime}
use pact.Journal.Command.{JournalCommand}
use pact.Journal.State.{JournalState, Library}
use pact.Journal.Apply.{apply}
use pact.Journal.Raft.{Raft, IsAnswering, client_write-applies}
use pact.Journal.Heartbeat.{write_all}

module _ {V : Type 0} (own : V → String) (p : V → Bool) where
  -- The ids of the values that pass a test, where each value stands under its own id.
  unfoldable pub chosen : Map String V → List String
  chosen m = map (λ b. own b.1) (select (λ b. p b.1) m)

  chosen-contains :
      (m : Map String V) (k : String) {v : V}
      → Each (λ n e. own e ≡ n) m
      → IsDistinct m
      → lookup k m ≡ some v
      → contains (chosen m) k ≡ p v
  unfolding chosen
  chosen-contains m k {v} owned d found = elim (Bool-cases (p v)) [
    | inl yep ↦
        let there_it_is : In (k, v) (select (λ b. p b.1) m) =
          In-select_of (λ b. p b.1) m (k, v) (lookup-In_own k m found) yep in
        let named : In (own v) (chosen m) = In-map_of (λ b. own b.1) _ (k, v) there_it_is in
        cc (In-contains (chosen m) (own v) named, owned k v found, yep)
    | inr nope ↦ elim (Bool-cases (contains (chosen m) k)) [
      | inr absent ↦ cc (absent, nope)
      | inl present ↦
          let ((j, w), m', e) =
            In-map (λ b. own b.1) (select (λ b. p b.1) m) k (contains-In (chosen m) k present) in
          let (inside, passes) = In-select (λ b. p b.1) m (j, w) m' in
          let found' : lookup j m ≡ some w = In-lookup j m d inside in
          cc (owned j w found', e, found, found', passes)
    ]
  ]

-- A loop of writes over ids, each of which changes one record, and a second time no further.
module _ {V : Type 0} {lib : Library} (raft : Raft lib) (up : IsAnswering raft) (later : DateTime)
    (view : JournalState → Map String V) (command : String → JournalCommand) (f : V → V)
    (idem : (v : V) → f (f v) ≡ f v)
    (step : (m n : String) (s : JournalState)
      → lookup n (view (apply lib later (command m) s).0)
        ≡ (if m == n then Option.map f (lookup n (view s)) else lookup n (view s))) where
  twice : (o : Option V) → Option.map f (Option.map f o) ≡ Option.map f o
  twice none = refl
  twice (some v) = ap some (idem v)

  write_all-lookup :
      (ms : List String) (n : String) (s : JournalState)
      → lookup n (view (write_all raft later command ms s))
        ≡ (if contains ms n then Option.map f (lookup n (view s)) else lookup n (view s))
  unfolding write_all
  write_all-lookup [] n s = refl
  write_all-lookup (m ∷ ms) n s =
      let t = (raft.client_write later (command m) s).0 in
      let first : lookup n (view t)
          ≡ (if m == n then Option.map f (lookup n (view s)) else lookup n (view s)) =
        ap (λ (x : JournalState). lookup n (view x))
          (client_write-applies raft up later (command m) s)
        ∙ step m n s in
      let ih = write_all-lookup ms n t in
      elim (==_cases m n) [
        | inl same ↦ elim (Bool-cases (contains ms n)) [
          | inl again ↦ cc (ih, again, first, same, ==_self n, twice (lookup n (view s)))
          | inr once ↦ cc (ih, once, first, same, ==_self n)
        ]
        | inr (differ, test) ↦ elim (Bool-cases (contains ms n)) [
          | inl q ↦ cc (ih, q, first, test, ==_false n m (λ p. differ (sym p)))
          | inr q ↦ cc (ih, q, first, test, ==_false n m (λ p. differ (sym p)))
        ]
      ]

  -- The loop over the ids of the records that pass a test changes just those records.
  pub write_chosen-lookup :
      (own : V → String) (p : V → Bool) (n : String) (s : JournalState)
      → Each (λ k v. own v ≡ k) (view s)
      → IsDistinct (view s)
      → lookup n (view (write_all raft later command (chosen own p (view s)) s))
        ≡ Option.map (λ v. if p v then f v else v) (lookup n (view s))
  write_chosen-lookup own p n s owned d =
      let whole = write_all-lookup (chosen own p (view s)) n s in
      elim (Option-cases (lookup n (view s))) [
        | inl absent ↦ elim (Bool-cases (contains (chosen own p (view s)) n)) [
          | inl q ↦ cc (whole, q, absent)
          | inr q ↦ cc (whole, q, absent)
        ]
        | inr (v, found) ↦
            let picked = chosen-contains own p (view s) n owned d found in
            elim (Bool-cases (p v)) [
              | inl q ↦ cc (whole, picked, q, found)
              | inr q ↦ cc (whole, picked, q, found)
            ]
      ]
