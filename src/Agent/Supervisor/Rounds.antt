-- ===== src/Agent/Supervisor/Rounds.antt =====
-- crates/pact-agent/src/supervisor/pact_supervisor.rs: a round of the supervision loop keeps track of
-- the processes, since what it marks as stopped was found to have ended.
use pact.Base.{
  ℕ, ◌≡◌, refl, sym, ◌∙◌, ap, subst, ◌≢◌, inl, inr, String, String_eq, true, false, Option, none,
  some, List, [], ◌∷◌, ◌==◌, Bool-cases, Option-cases, ==_cases, ==_true, ==_self, ==_false,
}
use pact.Base.Map.{Map, Each, lookup, lookup-insert_ne}
use pact.Base.Bindings.{IsDistinct}
use pact.Types.Service.{RestartPolicy, ServiceDecl}
use pact.Agent.Supervisor.{
  Child, CgroupHandle, ProcessState, System, PactSupervisor, is_running, put,
}
use pact.Agent.Supervisor.Tracking.{IsTracked, IsSupervised, IsDown, put-IsSupervised}
use pact.Agent.Supervisor.Supervision.{
  Crash, should_restart, find_decl, ended, poll, noted, detect, detect_crashed_services,
  drop_old_scope, revived, respawn, do_restart, mark_stopped, handle_declared, handle_crash,
  handle_crashes, supervise,
}

-- The two tables agree on every service but one.
abbrev Differs : String → PactSupervisor → PactSupervisor → Type 0
Differs name s t = (m : String) → name ≢ m → lookup m t.processes ≡ lookup m s.processes

put-Differs :
    (name : String) (ps : ProcessState) (s : PactSupervisor) → Differs name s (put name ps s)
put-Differs name ps s m n = lookup-insert_ne m name ps s.processes n

find_decl-name :
    (name : String) (ds : List ServiceDecl) {d : ServiceDecl}
    → find_decl name ds ≡ some d
    → d.name ≡ name
unfolding find_decl
find_decl-name name [] h = cc
find_decl-name name (x ∷ xs) h = elim (Bool-cases (x.name == name)) [
  | inl p ↦ cc (==_true x.name name p, rw p at h)
  | inr p ↦ find_decl-name name xs (rw p at h)
]

-- What a step does to the table: it stays tracked, and changes for one service at most.
abbrev Keeps : String → PactSupervisor → PactSupervisor → Type 0
Keeps name s t = IsSupervised t × Differs name s t

mark_stopped-Keeps :
    (policy : RestartPolicy) (name : String) (s : PactSupervisor)
    → IsSupervised s
    → IsDown name s
    → Keeps name s (mark_stopped policy name s)
unfolding mark_stopped
mark_stopped-Keeps RestartPolicy.always name s i down = (i, λ m n. refl)
mark_stopped-Keeps RestartPolicy.on_failure name s i down = (i, λ m n. refl)
mark_stopped-Keeps RestartPolicy.never name s i down =
    elim (Option-cases (lookup name s.processes)) [
      | inl e ↦ rw (e, mark_stopped) (i, λ m n. refl)
      | inr (ps, e) ↦
          rw (e, mark_stopped)
            (
              put-IsSupervised name _ s i (elim (i.0 name ps e) [
                | inl (r, _) ↦ cc (r, down ps e)
                | inr (_, c, p) ↦ inr (refl, c, p)
              ]),
              put-Differs name _ s,
            )
    ]

module _ {W : Type 0} (sys : System W) where
  drop_old_scope-Keeps :
      (name : String) (s : PactSupervisor) (w : W)
      → IsSupervised s
      → Keeps name s (drop_old_scope sys name s w).0
  unfolding drop_old_scope
  drop_old_scope-Keeps name s w i = elim (Option-cases (lookup name s.processes)) [
    | inl e ↦ rw (e, drop_old_scope) (i, λ m n. refl)
    | inr (ps, e) ↦
        rw (e, drop_old_scope) (put-IsSupervised name _ s i (i.0 name ps e), put-Differs name _ s)
  ]

  revived-Keeps :
      (d : ServiceDecl) (h : Option CgroupHandle) (s : PactSupervisor) (r : W × Option Child)
      → IsSupervised s
      → Keeps d.name s (revived sys d h s r).0
  unfolding revived
  revived-Keeps d h s (w, none) i = (i, λ m n. refl)
  revived-Keeps d h s (w, some c) i = elim (Option-cases (lookup d.name s.processes)) [
    | inl e ↦
        rw (e, revived)
          (put-IsSupervised d.name _ s i (inl (refl, (c, refl))), put-Differs d.name _ s)
    | inr (ps, e) ↦
        rw (e, revived)
          (put-IsSupervised d.name _ s i (inl (refl, (c, refl))), put-Differs d.name _ s)
  ]

  respawn-Keeps :
      (d : ServiceDecl) (s : PactSupervisor) (r : W × Option CgroupHandle)
      → IsSupervised s
      → Keeps d.name s (respawn sys d s r).0
  unfolding respawn
  respawn-Keeps d s (w, h) i = revived-Keeps d h s (sys.spawn d w) i

  do_restart-Keeps :
      (d : ServiceDecl) (s : PactSupervisor) (w : W)
      → IsSupervised s
      → Keeps d.name s (do_restart sys d s w).0
  unfolding do_restart
  do_restart-Keeps d s w i =
      let (kept, same) = drop_old_scope-Keeps d.name s w i in
      let (kept', same') = respawn-Keeps d (drop_old_scope sys d.name s w).0 _ kept in
      (kept', λ m n. same' m n ∙ same m n)

  handle_crash-Keeps :
      (crash : Crash) (s : PactSupervisor) (w : W)
      → IsSupervised s
      → IsDown crash.0 s
      → Keeps crash.0 s (handle_crash sys crash s w).0
  unfolding handle_crash handle_declared
  handle_crash-Keeps (name, code) s w i down =
      elim (Option-cases (find_decl name s.service_decls)) [
        | inl e ↦ rw (e, handle_crash) (i, λ m n. refl)
        | inr (d, e) ↦
            let own : d.name ≡ name = find_decl-name name s.service_decls e in
            rw (e, handle_crash)
              (elim (Bool-cases (should_restart d.restart code)) [
                | inl p ↦
                    let (kept, same) = do_restart-Keeps d s (sys.emit_crash name code true w) i in
                    rw (p, handle_declared) (kept, λ m n. same m (λ q. n (sym own ∙ q)))
                | inr p ↦ rw (p, handle_declared) (mark_stopped-Keeps d.restart name s i down)
              ])
      ]

  -- The crashes left to handle are of distinct services, none of which is running.
  handle_crashes-IsSupervised :
      (crashes : List Crash) (s : PactSupervisor) (w : W)
      → IsSupervised s
      → IsDistinct crashes
      → Each (λ name code. IsDown name s) crashes
      → IsSupervised (handle_crashes sys crashes (s, w)).0
  unfolding handle_crashes lookup
  handle_crashes-IsSupervised [] s w i d down = i
  handle_crashes-IsSupervised ((name, code) ∷ crashes) s w i d down =
      let (kept, same) =
        handle_crash-Keeps (name, code) s w i (down name code (rw (==_self name) refl)) in
      handle_crashes-IsSupervised crashes (handle_crash sys (name, code) s w).0
        (handle_crash sys (name, code) s w).1 kept d.1
        (λ m c found. λ ps here_it_is.
          let apart : name ≢ m = λ q. cc (d.0, q, found) in
          down m c (rw (==_false name m apart) found) ps (sym (same m apart) ∙ here_it_is))

-- What a look at the table finds: it stays tracked, the crashes are of distinct services of the table,
-- and none of these is running.
record IsDetected (m : Map String ProcessState) (r : Map String ProcessState × List Crash)
    : Type 0 where
  tracked : Each (λ n ps. IsTracked ps) r.0
  distinct : IsDistinct r.1
  names : IsDistinct r.0
  known : (n : String) → lookup n m ≡ none → (lookup n r.1 ≡ none) × (lookup n r.0 ≡ none)
  down :
      (n : String) (code : Option ℕ) (ps : ProcessState)
      → lookup n r.1 ≡ some code
      → lookup n r.0 ≡ some ps
      → is_running ps.state ≡ false

Each-cons :
    (name : String) (ps : ProcessState) (m : Map String ProcessState)
    → IsTracked ps
    → Each (λ n p. IsTracked p) m
    → Each (λ n p. IsTracked p) ((name, ps) ∷ m)
unfolding lookup
Each-cons name ps m t i k p found = elim (Bool-cases (name == k)) [
  | inl q ↦ let same : ps ≡ p = cc (rw q at found) in subst (λ x. IsTracked x) same t
  | inr q ↦ i k p (rw q at found)
]

noted-IsDetected :
    (name : String) (ps : ProcessState) (m : Map String ProcessState) (o : Option (Option ℕ))
    (r : Map String ProcessState × List Crash)
    → IsTracked ps
    → lookup name m ≡ none
    → IsDetected m r
    → IsDetected ((name, ps) ∷ m) (noted name ps o r)
unfolding noted ended lookup
noted-IsDetected name ps m none (m', crashes) t fresh i = record {
  tracked = Each-cons name ps m' t i.tracked;
  distinct = i.distinct;
  names = ((i.known name fresh).1, i.names);
  known = λ n absent. elim (Bool-cases (name == n)) [
    | inl q ↦ cc (rw q at absent)
    | inr q ↦ rw q (i.known n (rw q at absent))
  ];
  down = λ n code p crashed found. elim (==_cases name n) [
    | inl q ↦ cc (q, crashed, (i.known name fresh).0)
    | inr (d, q) ↦ i.down n code p crashed (rw q at found)
  ];
}
noted-IsDetected name ps m (some code) (m', crashes) t fresh i = record {
  tracked = Each-cons name (ended code ps) m' (inr (refl, refl, refl)) i.tracked;
  distinct = ((i.known name fresh).0, i.distinct);
  names = ((i.known name fresh).1, i.names);
  known = λ n absent. elim (Bool-cases (name == n)) [
    | inl q ↦ cc (rw q at absent)
    | inr q ↦ rw q (i.known n (rw q at absent))
  ];
  down = λ n c p crashed found. elim (==_cases name n) [
    | inl q ↦
        let hit : (name == n) ≡ true = rw q (==_self n) in
        let same : ended code ps ≡ p = cc (rw hit at found) in
        ap (λ (x : ProcessState). is_running x.state) (sym same)
    | inr (d, q) ↦ i.down n c p (rw q at crashed) (rw q at found)
  ];
}

detect-IsDetected :
    {W : Type 0} (sys : System W) (m : Map String ProcessState) (w : W)
    → IsDistinct m
    → Each (λ n ps. IsTracked ps) m
    → IsDetected m (detect sys m w).1
unfolding detect lookup
detect-IsDetected sys [] w d i = record {
  tracked = i;
  distinct = tt;
  names = tt;
  known = λ n absent. (refl, refl);
  down = λ n code ps crashed found. cc;
}
detect-IsDetected sys ((name, ps) ∷ m) w d i =
    noted-IsDetected name ps m (poll sys ps w).1 (detect sys m (poll sys ps w).0).1
      (i name ps (rw (==_self name) refl)) d.0
      (detect-IsDetected sys m (poll sys ps w).0 d.1
        (λ k p found. i k p (rw (==_false name k (λ q. cc (q, d.0, found))) found)))

pub supervise-IsSupervised :
    {W : Type 0} (sys : System W) (s : PactSupervisor) (w : W)
    → IsSupervised s
    → IsSupervised (supervise sys s w).0
unfolding supervise detect_crashed_services
supervise-IsSupervised sys s w i =
    let found = detect-IsDetected sys s.processes w i.1 i.0 in
    handle_crashes-IsSupervised sys (detect sys s.processes w).1.1
      (record s { processes = (detect sys s.processes w).1.0 }) (detect sys s.processes w).0
      (found.tracked, found.names) found.distinct
      (λ n code crashed ps here_it_is. found.down n code ps crashed here_it_is)
