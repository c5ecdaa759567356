-- ===== src/Agent/Whitelist/Updates.antt =====
-- crates/pact-agent/src/shell/whitelist.rs: what a policy's commands add to a whitelist.
use pact.Base.{
  ◌≡◌, refl, sym, ◌∙◌, inl, inr, String, String_eq, false, ◌||◌, Option, none, some, List, [], ◌∷◌,
  contains, Bool-cases, ==_cases, ==_self, ==_false, if◌then◌else◌, arith, Option-cases,
}
use pact.Base.Map.{
  Map, lookup, insert, contains_key, lookup-insert, contains_key-none, contains_key-some,
}
use pact.Agent.Whitelist.{
  WhitelistEntry, WhitelistManager, entry, add_commands, update_exec_whitelist, is_exec_allowed,
  is_state_changing,
}

-- What a command's entry is once the commands of a policy are added.
abbrev added : List String → String → Option WhitelistEntry → Option WhitelistEntry
added commands c (some e) = some e
added commands c none =
    if contains commands c then some (entry c false "Added from vCluster policy") else none

add_commands-lookup :
    (commands : List String) (entries : Map String WhitelistEntry) (c : String)
    → lookup c (add_commands commands entries) ≡ added commands c (lookup c entries)
unfolding add_commands
add_commands-lookup [] entries c = elim (Option-cases (lookup c entries)) [
  | inl e ↦ rw e refl
  | inr (x, e) ↦ rw e refl
]
add_commands-lookup (k ∷ ks) entries c = elim (Bool-cases (contains_key k entries)) [
  | inl known ↦
      let (x, found) = contains_key-some k entries known in
      rw known (
        add_commands-lookup ks entries c ∙ elim (Option-cases (lookup c entries)) [
          | inr (y, e) ↦ rw e refl
          | inl e ↦ rw e (rw (==_false c k (λ q. cc (q, found, e))) refl)
        ])
  | inr fresh ↦
      let absent = contains_key-none k entries fresh in
      let new = entry k false "Added from vCluster policy" in
      rw fresh (
        add_commands-lookup ks (insert k new entries) c
        ∙ rw (lookup-insert c k new entries) (elim (==_cases k c) [
          | inl q ↦
              let gone : lookup c entries ≡ none = cc (absent, q) in
              rw q (rw (==_self c) (rw gone (rw (==_self c) refl)))
          | inr (n, q) ↦ rw q (elim (Option-cases (lookup c entries)) [
            | inr (y, e) ↦ rw e refl
            | inl e ↦ rw e (rw (==_false c k (λ r. n (sym r))) refl)
          ])
        ]))
]

-- A policy's update of the exec whitelist allows what was allowed and what the policy names, and
-- every command counts as state changing as before: a new one never does.
pub update_exec_whitelist-allows :
    (commands : List String) (m : WhitelistManager) (c : String)
    → (is_exec_allowed c (update_exec_whitelist commands m)
        ≡ (is_exec_allowed c m || contains commands c))
      × (is_state_changing c (update_exec_whitelist commands m) ≡ is_state_changing c m)
unfolding update_exec_whitelist is_exec_allowed is_state_changing contains_key
update_exec_whitelist-allows commands m c =
    ground (arith, add_commands-lookup commands m.exec_whitelist c)
