-- ===== src/Scheduling/Settled.antt =====
-- How the scheduling programs end on a kernel that does what it documents.
use embedded_system_software.Base.{
  ℕ, ◌≡◌, refl, ap, ◌∙◌, ◌⊎◌, inl, inr, Bool, true, false, some, List, [], ◌∷◌, if◌then◌else◌,
  Bool-cases, All, ℤ, eqb_ℤ, ok_code, minus_one,
}
use embedded_system_software.Scheduling.{
  Os, Line, Ended, sched_fifo, sched_rr, cpu_0, affinity_failed, scheduler_failed, param_failed,
  fifo_used, rr_used, parent_low, child_high, return_0, scheduler_used, set_up, rr_main, rr_child,
}

-- What the kernel keeps of a process: its policy, its priority and the CPUs that it may use.
abbrev pub Seen : Type 0 → Type 0
Seen S = S → ℤ × ℤ × ℕ

-- The documented effect of the calls that succeed; a child inherits how its parent is scheduled.
pub record IsLinux {S : Type 0} (os : Os S) (seen : Seen S) : Type 0 where
  pub sets_affinity :
      (m : ℕ) (s : S)
      → eqb_ℤ (os.sched_setaffinity m s).0 ok_code ≡ true
      → (seen (os.sched_setaffinity m s).1).2 ≡ m
  pub sets_scheduler :
      (p q : ℤ) (s : S)
      → eqb_ℤ (os.sched_setscheduler p q s).0 minus_one ≡ false
      → seen (os.sched_setscheduler p q s).1 ≡ (p, q, (seen s).2)
  pub sets_param :
      (q : ℤ) (s : S)
      → eqb_ℤ (os.sched_setparam q s).0 ok_code ≡ true
      → seen (os.sched_setparam q s).1 ≡ ((seen s).0, q, (seen s).2)
  pub gives_policy : (s : S) → os.sched_getscheduler s ≡ (seen s).0
  pub keeps_parent : (s : S) → seen (os.fork s).1 ≡ seen s
  pub keeps_child : (s : S) → seen (os.fork s).2 ≡ seen s

-- A program that could not be scheduled as it wants.
abbrev pub IsRefused : {S : Type 0} → Ended S → Type 0
IsRefused e =
    (e.code ≡ 1) × ((e.printed ≡ affinity_failed ∷ []) ⊎ (e.printed ≡ scheduler_failed ∷ []))

module _ {S : Type 0} (os : Os S) (seen : Seen S) (linux : IsLinux os seen) where
  -- The process goes on as it asked for, or has ended.
  abbrev IsSetUp : ℤ → ℤ → Line → Ended S ⊎ (Line × S) → Type 0
  IsSetUp p q l (inl e) = IsRefused e
  IsSetUp p q l (inr (l', u)) = (l' ≡ l) × (seen u ≡ (p, q, cpu_0))

  set_up-IsSetUp :
      (p q : ℤ) (l : Line) (s : S) → scheduler_used p ≡ some l → IsSetUp p q l (set_up os p q s)
  unfolding set_up
  set_up-IsSetUp p q l s known =
      elim (Bool-cases (eqb_ℤ (os.sched_setaffinity cpu_0 s).0 ok_code)) [
        | inr refused ↦ rw refused (refl, inl refl)
        | inl done ↦
            elim (Bool-cases
              (eqb_ℤ (os.sched_setscheduler p q (os.sched_setaffinity cpu_0 s).1).0 minus_one)) [
                | inl refused ↦ rw (done, refused) (refl, inr refl)
                | inr kept ↦
                    let after = linux.sets_scheduler p q (os.sched_setaffinity cpu_0 s).1 kept in
                    let policy =
                      linux.gives_policy
                        (os.sched_setscheduler p q (os.sched_setaffinity cpu_0 s).1).1
                      ∙ ap (λ t. t.0) after in
                    rw (done, kept, policy, known)
                      (refl, after ∙ ap (λ m. (p, q, m)) (linux.sets_affinity cpu_0 s done))
              ]
      ]

  -- What the two processes of sched_fifo.c are in the end, when it could be set up.
  abbrev IsParent : Ended S → Type 0
  IsParent e =
      (e.code ≡ 0)
      × (e.printed ≡ fifo_used ∷ parent_low ∷ [])
      × (seen e.state ≡ (sched_fifo, os.sched_get_priority_min sched_fifo, cpu_0))

  abbrev IsChild : Ended S → Type 0
  IsChild e =
      ((e.code ≡ 0)
        × (e.printed ≡ child_high ∷ [])
        × (seen e.state ≡ (sched_fifo, os.sched_get_priority_max sched_fifo, cpu_0)))
      ⊎ ((e.code ≡ 1) × (e.printed ≡ child_high ∷ param_failed ∷ []))

  abbrev pub AreSettled : List (Ended S) → Type 0
  AreSettled [] = ⊥
  AreSettled (e ∷ []) = IsRefused e ⊎ IsParent e
  AreSettled (e ∷ c ∷ []) = IsParent e × IsChild c
  AreSettled (e ∷ c ∷ d ∷ es) = ⊥

  -- A process of sched_rr.c that ended well.
  abbrev IsRoundRobin : Ended S → Type 0
  IsRoundRobin e =
      (e.code ≡ 0) × (seen e.state ≡ (sched_rr, os.sched_get_priority_max sched_rr, cpu_0))

  fork-IsRoundRobin :
      (forked : Bool) (f : S) (lines : List Line) (es : List (Ended S))
      → seen f ≡ (sched_rr, os.sched_get_priority_max sched_rr, cpu_0)
      → All IsRoundRobin es
      → All IsRoundRobin (return_0 lines f ∷ (if forked then es else []))
  fork-IsRoundRobin true f lines es v w = ((refl, v), w)
  fork-IsRoundRobin false f lines es v w = ((refl, v), tt)

  -- sched_rr.c is refused, says so and ends with 1, or all its processes run round robin on CPU 0 with the greatest priority, and end with 0.
  rr_main-IsRoundRobin :
      (s : S)
      → ((e : Ended S) × (rr_main os s ≡ e ∷ []) × IsRefused e) ⊎ All IsRoundRobin (rr_main os s)
  unfolding rr_main scheduler_used
  rr_main-IsRoundRobin s =
      let high = os.sched_get_priority_max sched_rr in
      go (set_up os sched_rr high s) (set_up-IsSetUp sched_rr high rr_used s refl)
    where
      finish : Ended S ⊎ (Line × S) → List (Ended S)
      finish r = elim r [
        | inl e ↦ e ∷ []
        | inr (l, u) ↦
            let f = os.fork u in return_0 (l ∷ []) f.1 ∷ (if f.0 then rr_child os f.2 else [])
      ]

      go :
          (r : Ended S ⊎ (Line × S))
          → IsSetUp sched_rr (os.sched_get_priority_max sched_rr) rr_used r
          → ((e : Ended S) × (finish r ≡ e ∷ []) × IsRefused e) ⊎ All IsRoundRobin (finish r)
      go (inl e) v = inl (e, refl, v)
      go (inr (l, u)) v =
          let c = (os.fork u).2 in
          let w = linux.keeps_child u ∙ v.1 in
          inr (
            fork-IsRoundRobin (os.fork u).0 (os.fork u).1 (l ∷ []) (rr_child os c)
              (linux.keeps_parent u ∙ v.1)
              (fork-IsRoundRobin (os.fork c).0 (os.fork c).1 [] (return_0 [] (os.fork c).2 ∷ [])
                (linux.keeps_parent c ∙ w) ((refl, linux.keeps_child c ∙ w), tt)))
