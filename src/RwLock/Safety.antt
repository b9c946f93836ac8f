-- ===== src/RwLock/Safety.antt =====
-- No reader of simple_rwlock.c touches freed memory, what it prints does not change under it, and no memory is lost.
use embedded_system_software.Base.{
  Option-cases, update-none, update_self, ap, ℕ, ◌≤◌, ◌≡◌, refl, sym, ap, subst, ◌∙◌, ◌≢◌, ◌↔◌, ◌⊎◌,
  inl, inr, true, false, Option, none, some, arith, ◌==◌, ==_iff, Bool-cases, update, update_self,
  update_ne, IsSome, IsSome-value, update-none, some-ne-none,
}
use embedded_system_software.RwLock.{
  simple_rwlock_exit, Shared, Pc, outside, reading, printed, printed_twice, writing, made, swapped,
  freed, System, writes, Move, read_lock, first_print, second_print, read_unlock, write_lock,
  kmalloc, assign, kfree, write_unlock, go, init, Reach, start, later,
}

-- What holds of a thread: a reader's pointer is the shared one, and what it printed is there.
abbrev Fine : Shared → Pc → Type 0
Fine m outside = Unit {0}
Fine m reading = Unit {0}
Fine m (printed p v) = (p ≡ m.my_data) × (v ≡ m.cell m.my_data)
Fine m (printed_twice p v w) = (v ≡ m.cell m.my_data) × (w ≡ v)
Fine m (writing arg) = Unit {0}
Fine m (made new) = IsSome (m.cell new) × (new ≢ m.my_data)
Fine m (swapped old) = old ≢ m.my_data
Fine m freed = Unit {0}

-- The address beside `my_data` that a thread has to put in place or to free.
abbrev pub spare : Pc → Option ℕ
spare outside = none
spare reading = none
spare (printed p v) = none
spare (printed_twice p v w) = none
spare (writing arg) = none
spare (made new) = some new
spare (swapped old) = some old
spare freed = none

pub record Inv (s : System) : Type 0 where
  pub live : IsSome (s.shared.cell s.shared.my_data)
  pub unused : (p : ℕ) → s.shared.next ≤ p → s.shared.cell p ≡ none
  pub fine : (i : ℕ) → Fine s.shared (s.pc i)
  pub apart : (i j : ℕ) → i ≢ j → writes (s.pc i) ≡ true → s.pc j ≡ outside
  pub owned :
      (p : ℕ)
      → IsSome (s.shared.cell p)
      → (p ≡ s.shared.my_data) ⊎ ((i : ℕ) × (spare (s.pc i) ≡ some p))

module _ (s : System) (i : ℕ) (v : Inv s) where
  reader-Inv :
      (q : Pc)
      → writes q ≡ false
      → Fine s.shared q
      → spare (s.pc i) ≡ none
      → ((j : ℕ) → i ≢ j → writes (s.pc j) ≡ false)
      → Inv (record { shared = s.shared; pc = update s.pc i q })
  reader-Inv q w own empty nobody = record {
    live = v.live;
    unused = v.unused;
    fine = λ j. elim (Bool-cases (i == j)) [ inl e ↦ rw e own | inr e ↦ rw e (v.fine j) ];
    apart = λ j k d. elim (Bool-cases (i == j)) [
      | inl e ↦ rw e (λ t. cc)
      | inr e ↦ rw e (λ t. cc (nobody j (ground arith)))
    ];
    owned = λ p h. elim (v.owned p h) [
      | inl e ↦ inl e
      | inr (k, e) ↦ inr (
        k,
        elim (Bool-cases (i == k)) [
          | inl same ↦ (let eq = (==_iff i k).0 same in cc)
          | inr d ↦ rw d e
        ],
      )
    ];
  }

  -- The address that only this thread can hold, when the others are outside.
  spare-cases :
      ((j : ℕ) → i ≢ j → s.pc j ≡ outside)
      → (p : ℕ) → IsSome (s.shared.cell p)
      → (p ≡ s.shared.my_data) ⊎ (spare (s.pc i) ≡ some p)
  spare-cases quiet p h = elim (v.owned p h) [
    | inl e ↦ inl e
    | inr (k, e) ↦ inr (elim (Bool-cases (i == k)) [
      | inl same ↦ (let eq = (==_iff i k).0 same in cc)
      | inr d ↦ cc (quiet k (ground arith))
    ])
  ]

  writer-Inv :
      (q : Pc) (m : Shared)
      → ((j : ℕ) → i ≢ j → s.pc j ≡ outside)
      → IsSome (m.cell m.my_data)
      → ((p : ℕ) → m.next ≤ p → m.cell p ≡ none)
      → Fine m q
      → ((p : ℕ) → IsSome (m.cell p) → (p ≡ m.my_data) ⊎ (spare q ≡ some p))
      → Inv (record { shared = m; pc = update s.pc i q })
  writer-Inv q m quiet live unused own owned = record {
    live = live;
    unused = unused;
    fine = λ j. elim (Bool-cases (i == j)) [
      | inl e ↦ rw e own
      | inr e ↦ rw e (subst (Fine m) (sym (quiet j (ground arith))) tt)
    ];
    apart = λ j k d. elim (Bool-cases (i == j)) [
      | inl e ↦ (λ t. update_ne s.pc i k q (ground arith) ∙ quiet k (ground arith))
      | inr e ↦ rw e (λ t. cc (quiet j (ground arith)))
    ];
    owned = λ p h. elim (owned p h) [
      | inl e ↦ inl e
      | inr e ↦ inr (i, ap spare (update_self s.pc i q) ∙ e)
    ];
  }

  nobody :
      {p : Pc}
      → ((j : ℕ) → i ≢ j → writes (s.pc j) ≡ true → p ≡ outside)
      → p ≢ outside
      → (j : ℕ) → i ≢ j
      → writes (s.pc j) ≡ false
  nobody behind inside j d = elim (Bool-cases (writes (s.pc j))) [
    | inl t ↦ absurd (inside (behind j d t))
    | inr f ↦ f
  ]

  own-cases :
      (p : Pc)
      → s.pc i ≡ p
      → ((j : ℕ) → i ≢ j → s.pc j ≡ outside)
      → (x : ℕ) → IsSome (s.shared.cell x)
      → (x ≡ s.shared.my_data) ⊎ (spare p ≡ some x)
  own-cases p at_p quiet x h =
      subst (λ o. (x ≡ s.shared.my_data) ⊎ (spare o ≡ some x)) at_p (spare-cases quiet x h)

  -- What is still in use after a `kfree`, and what was before a `kmalloc`.
  still : (f : ℕ → Option ℕ) (old x : ℕ) → IsSome (update f old none x) → (old ≢ x) × IsSome (f x)
  still f old x h = elim (Bool-cases (old == x)) [
    | inl e ↦ absurd (rw e at h)
    | inr e ↦ (ground arith, rw e at h)
  ]

  before :
      (f : ℕ → Option ℕ) (new x : ℕ) (n : ℕ)
      → IsSome (update f new (some n) x)
      → (new ≡ x) ⊎ IsSome (f x)
  before f new x n h = elim (Bool-cases (new == x)) [
    | inl e ↦ inl ((==_iff new x).0 e)
    | inr e ↦ inr (rw e at h)
  ]

  move-Inv :
      (p q : Pc) (m : Shared)
      → Move s p m q
      → s.pc i ≡ p
      → Fine s.shared p
      → ((j : ℕ) → i ≢ j → writes p ≡ true → s.pc j ≡ outside)
      → ((j : ℕ) → i ≢ j → writes (s.pc j) ≡ true → p ≡ outside)
      → Inv (record { shared = m; pc = update s.pc i q })
  move-Inv p q m (read_lock nobody) at_p own ahead behind =
      reader-Inv q refl tt (ap spare at_p) (λ j d. nobody j)
  move-Inv p q m first_print at_p own ahead behind =
      reader-Inv q refl (refl, refl) (ap spare at_p) (nobody behind (λ t. cc))
  move-Inv p q m (second_print x u) at_p own ahead behind =
      reader-Inv q refl (own.1, ap s.shared.cell own.0 ∙ sym own.1) (ap spare at_p)
        (nobody behind (λ t. cc))
  move-Inv p q m (read_unlock x u w) at_p own ahead behind =
      reader-Inv q refl tt (ap spare at_p) (nobody behind (λ t. cc))
  move-Inv p q m (write_lock arg quiet) at_p own ahead behind =
      writer-Inv q m (λ j d. quiet j) v.live v.unused tt (own-cases p at_p (λ j d. quiet j))
  move-Inv p q m (kmalloc arg) at_p own ahead behind =
      let free = v.unused s.shared.next (omega arith) in
      let fresh = some-ne-none s.shared.cell s.shared.my_data s.shared.next v.live free in
      writer-Inv q m (λ j d. ahead j d refl)
        (subst IsSome
          (sym (update_ne s.shared.cell s.shared.next s.shared.my_data (some arg) fresh)) v.live)
        (λ x h.
          update_ne s.shared.cell s.shared.next x (some arg) (omega arith)
          ∙ v.unused x (omega arith))
        (subst IsSome (sym (update_self s.shared.cell s.shared.next (some arg))) tt, fresh)
        (λ x h. elim (before s.shared.cell s.shared.next x arg h) [
          | inl e ↦ inr (ap some e)
          | inr k ↦ elim (own-cases p at_p (λ j d. ahead j d refl) x k) [
            | inl e ↦ inl e
            | inr e ↦ cc
          ]
        ])
  move-Inv p q m (assign new) at_p own ahead behind =
      writer-Inv q m (λ j d. ahead j d refl) own.0 v.unused (λ e. own.1 (sym e))
        (λ x h. elim (own-cases p at_p (λ j d. ahead j d refl) x h) [
          | inl e ↦ inr (ap some (sym e))
          | inr e ↦ inl (cc)
        ])
  move-Inv p q m (kfree old) at_p own ahead behind =
      writer-Inv q m (λ j d. ahead j d refl)
        (subst IsSome (sym (update_ne s.shared.cell old s.shared.my_data none own)) v.live)
        (λ x h. update-none s.shared.cell old x (v.unused x h)) tt
        (λ x h.
          let (d, k) = still s.shared.cell old x h in
          elim (own-cases p at_p (λ j d. ahead j d refl) x k) [
            | inl e ↦ inl e
            | inr e ↦ absurd (d (cc))
          ])
  move-Inv p q m write_unlock at_p own ahead behind =
      writer-Inv q m (λ j d. ahead j d refl) v.live v.unused tt
        (own-cases p at_p (λ j d. ahead j d refl))

init-Inv : Inv init
init-Inv = record {
  live = tt;
  unused = λ p h. ground arith;
  fine = λ i. tt;
  apart = λ i j d t. refl;
  owned = λ p h. inl (ground arith);
}

Reach-Inv : {s : System} → Reach s → Inv s
Reach-Inv start = init-Inv
Reach-Inv (later {s} r (go i {p} {q} {m} e mv)) =
    let v = Reach-Inv r in
    move-Inv s i v p q m mv e (subst (Fine s.shared) e (v.fine i))
      (λ j d w. v.apart i j d (ap writes e ∙ w))
      (λ j d w. sym e ∙ v.apart j i (λ same. d (sym same)) w)

-- The memory after the module is unloaded, when no address but `my_data` is in use.
exit-frees :
    (m : Shared)
    → ((p : ℕ) → IsSome (m.cell p) ↔ (p ≡ m.my_data))
    → (p : ℕ) → (simple_rwlock_exit m).cell p ≡ none
exit-frees m only p = elim (Option-cases (m.cell p)) [
  | inl free ↦ update-none m.cell m.my_data p free
  | inr (n, used) ↦
      let here : p ≡ m.my_data = (only p).0 (subst IsSome (sym used) tt) in
      ap (update m.cell m.my_data none) here ∙ update_self m.cell m.my_data none
]

Reach-owns :
    {s : System}
    → Reach s
    → ((i : ℕ) → s.pc i ≡ outside)
    → (p : ℕ) → IsSome (s.shared.cell p) ↔ (p ≡ s.shared.my_data)
Reach-owns {s} r quiet p = (
  (λ used. elim ((Reach-Inv r).owned p used) [
    | inl e ↦ e
    | inr (i, e) ↦ let none_some = sym (ap spare (quiet i)) ∙ e in cc
  ]),
  (λ e. subst (λ x. IsSome (s.shared.cell x)) (sym e) (Reach-Inv r).live),
)

-- In every state that threads reach, in any order and any number, a reader that has printed twice has printed the same
-- value twice, and no freed memory; and when all threads are outside, `my_data` is the one address still in use, and the
-- removal of the module leaves none.
pub Reach-reads :
    {s : System}
    → Reach s
    → ((i p : ℕ) (v w : Option ℕ)
        → s.pc i ≡ printed_twice p v w
        → (n : ℕ) × (v ≡ some n) × (w ≡ some n))
      × (((i : ℕ) → s.pc i ≡ outside)
          → (p : ℕ)
          → (IsSome (s.shared.cell p) ↔ (p ≡ s.shared.my_data))
            × ((simple_rwlock_exit s.shared).cell p ≡ none))
Reach-reads {s} r = (
  (λ i p v w here.
      let h = subst (Fine s.shared) here ((Reach-Inv r).fine i) in
      let (n, k) = IsSome-value (s.shared.cell s.shared.my_data) (Reach-Inv r).live in
      (n, h.0 ∙ k, h.1 ∙ h.0 ∙ k)),
  (λ quiet p. (Reach-owns r quiet p, exit-frees s.shared (Reach-owns r quiet) p)),
)
