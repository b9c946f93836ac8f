-- ===== src/Rcu/Safety.antt =====
-- No reader of simple_rcu.c touches freed memory, and what it prints does not change under it.
use embedded_system_software.Base.{
  update-none, update_self, update_ne, some-ne-none, update, IsSome, IsSome-value, ℕ, ◌≤◌, ◌<◌, ◌≡◌,
  refl, sym, subst, ◌∙◌, ◌≢◌, inl, inr, true, false, Option, none, some, arith, ◌==◌, Bool-cases,
}
use embedded_system_software.Rcu.{
  Shared, Pc, outside, reading, taken, printed, printed_twice, writing, made, swapped,
  synchronizing, synchronized, freed, System, writes, period, Move, rcu_read_lock, rcu_dereference,
  first_print, second_print, rcu_read_unlock, spin_lock, kmalloc, assign_pointer, synchronize,
  grace_period, kfree, spin_unlock, go, init, Reach, start, later,
}

-- What holds of a thread and the shared variables: a reader's pointer is live and holds what was printed.
abbrev Fine : Shared → Pc → Type 0
Fine m outside = Unit {0}
Fine m (reading e) = e ≤ m.epoch
Fine m (taken e p) = (e ≤ m.epoch) × IsSome (m.cell p)
Fine m (printed e p v) = (e ≤ m.epoch) × (m.cell p ≡ v) × IsSome v
Fine m (printed_twice e p v w) = (e ≤ m.epoch) × (m.cell p ≡ v) × IsSome v × (w ≡ v)
Fine m (writing arg) = Unit {0}
Fine m (made new) = IsSome (m.cell new) × (new ≢ m.my_data)
Fine m (swapped old) = old ≢ m.my_data
Fine m (synchronizing old e) = (old ≢ m.my_data) × (e ≤ m.epoch)
Fine m (synchronized old) = old ≢ m.my_data
Fine m freed = Unit {0}

-- The period and the pointer of a reader that has taken it.
abbrev held : Pc → Option (ℕ × ℕ)
held outside = none
held (reading e) = none
held (taken e p) = some (e, p)
held (printed e p v) = some (e, p)
held (printed_twice e p v w) = some (e, p)
held (writing arg) = none
held (made new) = none
held (swapped old) = none
held (synchronizing old e) = none
held (synchronized old) = none
held freed = none

-- The pointer that a writer is about to free, and the period before which a reader may have taken it.
abbrev grace : Pc → Option (ℕ × ℕ)
grace outside = none
grace (reading e) = none
grace (taken e p) = none
grace (printed e p v) = none
grace (printed_twice e p v w) = none
grace (writing arg) = none
grace (made new) = none
grace (swapped old) = none
grace (synchronizing old e) = some (e, old)
grace (synchronized old) = some (0, old)
grace freed = none

-- A reader that holds what a writer is about to free took it before the period.
abbrev Awaits : Pc → Pc → Type 0
Awaits p q = (old e e' : ℕ) → grace p ≡ some (e, old) → held q ≡ some (e', old) → e' < e

-- What holds of two threads: one of them at most writes.
abbrev Apart : Pc → Pc → Type 0
Apart p q = (writes p ≡ true → writes q ≡ false) × Awaits p q

pub record Inv (s : System) : Type 0 where
  pub live : IsSome (s.shared.cell s.shared.my_data)
  pub unused : (p : ℕ) → s.shared.next ≤ p → s.shared.cell p ≡ none
  pub fine : (i : ℕ) → Fine s.shared (s.pc i)
  pub apart : (i j : ℕ) → i ≢ j → Apart (s.pc i) (s.pc j)

Awaits-no_grace : (p q : Pc) → grace p ≡ none → Awaits p q
Awaits-no_grace p q h old e e' g k = cc

Awaits-no_held : (p q : Pc) → held q ≡ none → Awaits p q
Awaits-no_held p q h old e e' g k = cc

-- The invariant after a move of one thread, from what the move has to keep.
module _ (s : System) (i : ℕ) (q : Pc) (m : Shared) (live : IsSome (m.cell m.my_data))
    (unused : (p : ℕ) → m.next ≤ p → m.cell p ≡ none) (own : Fine m q)
    (others : (j : ℕ) → i ≢ j → Fine m (s.pc j)) (ahead : (j : ℕ) → i ≢ j → Apart q (s.pc j))
    (behind : (j : ℕ) → i ≢ j → Apart (s.pc j) q)
    (apart : (j k : ℕ) → j ≢ k → Apart (s.pc j) (s.pc k)) where
  moved-Fine : (j : ℕ) → Fine m (update s.pc i q j)
  moved-Fine j = elim (Bool-cases (i == j)) [
    | inl e ↦ rw e own
    | inr e ↦ rw e (others j (ground arith))
  ]

  moved-Apart : (j k : ℕ) → j ≢ k → Apart (update s.pc i q j) (update s.pc i q k)
  moved-Apart j k d = elim (Bool-cases (i == j)) [
    | inl e ↦ elim (Bool-cases (i == k)) [
      | inl f ↦ absurd (d (ground arith))
      | inr f ↦ rw (e, f) (ahead k (ground arith))
    ]
    | inr e ↦ elim (Bool-cases (i == k)) [
      | inl f ↦ rw (e, f) (behind j (ground arith))
      | inr f ↦ rw (e, f) (apart j k d)
    ]
  ]

  moved-Inv : Inv (record { shared = m; pc = update s.pc i q })
  moved-Inv = record { live = live; unused = unused; fine = moved-Fine; apart = moved-Apart }

held-epoch : (m : Shared) (p : Pc) (e x : ℕ) → Fine m p → held p ≡ some (e, x) → e ≤ m.epoch
held-epoch m outside e x h k = cc
held-epoch m (reading e') e x h k = cc
held-epoch m (taken e' y) e x h k = ground arith
held-epoch m (printed e' y v) e x h k = ground arith
held-epoch m (printed_twice e' y v w) e x h k = ground arith
held-epoch m (writing arg) e x h k = cc
held-epoch m (made new) e x h k = cc
held-epoch m (swapped old) e x h k = cc
held-epoch m (synchronizing old e') e x h k = cc
held-epoch m (synchronized old) e x h k = cc
held-epoch m freed e x h k = cc

held-period : (p : Pc) (e x : ℕ) → held p ≡ some (e, x) → period p ≡ some e
held-period outside e x k = cc
held-period (reading e') e x k = cc
held-period (taken e' y) e x k = ground arith
held-period (printed e' y v) e x k = ground arith
held-period (printed_twice e' y v w) e x k = ground arith
held-period (writing arg) e x k = cc
held-period (made new) e x k = cc
held-period (swapped old) e x k = cc
held-period (synchronizing old e') e x k = cc
held-period (synchronized old) e x k = cc
held-period freed e x k = cc

-- A thread that does not write keeps what holds of it while its pointer keeps its value.
Fine-kept :
    (m m' : Shared) (p : Pc)
    → writes p ≡ false
    → m.epoch ≤ m'.epoch
    → ((e x : ℕ) → held p ≡ some (e, x) → IsSome (m.cell x) → m'.cell x ≡ m.cell x)
    → Fine m p
    → Fine m' p
Fine-kept m m' outside w le same h = tt
Fine-kept m m' (reading e) w le same h = omega arith
Fine-kept m m' (taken e x) w le same h =
    (omega (arith, h.0), subst IsSome (sym (same e x refl h.1)) h.1)
Fine-kept m m' (printed e x v) w le same h =
    (omega (arith, h.0), same e x refl (rw h.1 h.2) ∙ h.1, h.2)
Fine-kept m m' (printed_twice e x v u) w le same h =
    (omega (arith, h.0), same e x refl (rw h.1 h.2) ∙ h.1, h.2, h.3)
Fine-kept m m' (writing arg) w le same h = cc
Fine-kept m m' (made new) w le same h = cc
Fine-kept m m' (swapped old) w le same h = cc
Fine-kept m m' (synchronizing old e) w le same h = cc
Fine-kept m m' (synchronized old) w le same h = cc
Fine-kept m m' freed w le same h = cc

grace-Fine :
    (m : Shared) (p : Pc) (e old : ℕ) → Fine m p → grace p ≡ some (e, old) → old ≢ m.my_data
grace-Fine m outside e old h g = cc
grace-Fine m (reading e') e old h g = cc
grace-Fine m (taken e' x) e old h g = cc
grace-Fine m (printed e' x v) e old h g = cc
grace-Fine m (printed_twice e' x v w) e old h g = cc
grace-Fine m (writing arg) e old h g = cc
grace-Fine m (made new) e old h g = cc
grace-Fine m (swapped old') e old h g = cc
grace-Fine m (synchronizing old' e') e old h g = ground arith
grace-Fine m (synchronized old') e old h g = ground arith
grace-Fine m freed e old h g = cc

module _ (s : System) (i : ℕ) (v : Inv s) where
  -- A move of a reader, which leaves the shared variables as they are.
  reader-Inv :
      (q : Pc)
      → writes q ≡ false
      → Fine s.shared q
      → ((j : ℕ) → i ≢ j → Awaits (s.pc j) q)
      → grace q ≡ none
      → Inv (record { shared = s.shared; pc = update s.pc i q })
  reader-Inv q w own behind g =
      moved-Inv s i q s.shared v.live v.unused own (λ j d. v.fine j)
        (λ j d. (λ t. cc, Awaits-no_grace q (s.pc j) g)) (λ j d. (λ t. w, behind j d)) v.apart

  -- A move of the writer, while no other thread writes.
  writer-Inv :
      (q : Pc) (m : Shared)
      → ((j : ℕ) → i ≢ j → writes (s.pc j) ≡ false)
      → held q ≡ none
      → IsSome (m.cell m.my_data)
      → ((p : ℕ) → m.next ≤ p → m.cell p ≡ none)
      → Fine m q
      → s.shared.epoch ≤ m.epoch
      → ((j e x : ℕ)
          → i ≢ j
          → held (s.pc j) ≡ some (e, x)
          → IsSome (s.shared.cell x)
          → m.cell x ≡ s.shared.cell x)
      → ((j : ℕ) → i ≢ j → Awaits q (s.pc j))
      → Inv (record { shared = m; pc = update s.pc i q })
  writer-Inv q m quiet h live unused own le same waits =
      moved-Inv s i q m live unused own
        (λ j d. Fine-kept s.shared m (s.pc j) (quiet j d) le (λ e x. same j e x d) (v.fine j))
        (λ j d. (λ t. quiet j d, waits j d))
        (λ j d. (λ t. cc (quiet j d), Awaits-no_held (s.pc j) q h)) v.apart

module _ (s : System) (i : ℕ) (v : Inv s) where
  move-Inv :
      (p q : Pc) (m : Shared)
      → Move s i p m q
      → Fine s.shared p
      → ((j : ℕ) → i ≢ j → Apart p (s.pc j))
      → ((j : ℕ) → i ≢ j → Apart (s.pc j) p)
      → Inv (record { shared = m; pc = update s.pc i q })
  move-Inv p q m rcu_read_lock own ahead behind =
      reader-Inv s i v q refl (omega arith) (λ j d. Awaits-no_held (s.pc j) q refl) refl
  move-Inv p q m (rcu_dereference e) own ahead behind =
      reader-Inv s i v q refl (own, v.live)
        (λ j d old e e' g k.
          absurd (grace-Fine s.shared (s.pc j) e old (v.fine j) g (ground arith)))
        refl
  move-Inv p q m (first_print e x) own ahead behind =
      reader-Inv s i v q refl (own.0, refl, own.1) (λ j d. (behind j d).1) refl
  move-Inv p q m (second_print e x u) own ahead behind =
      reader-Inv s i v q refl (own.0, own.1, own.2, own.1) (λ j d. (behind j d).1) refl
  move-Inv p q m (rcu_read_unlock e x u w) own ahead behind =
      reader-Inv s i v q refl tt (λ j d. Awaits-no_held (s.pc j) q refl) refl
  move-Inv p q m (spin_lock arg quiet) own ahead behind =
      writer-Inv s i v q m (λ j d. quiet j) refl v.live v.unused tt (omega arith)
        (λ j e x d h l. refl) (λ j d. Awaits-no_grace q (s.pc j) refl)
  move-Inv p q m (kmalloc arg) own ahead behind =
      let free = v.unused s.shared.next (omega arith) in
      let fresh = some-ne-none s.shared.cell s.shared.my_data s.shared.next v.live free in
      writer-Inv s i v q m (λ j d. (ahead j d).0 refl) refl
        (subst IsSome
          (sym (update_ne s.shared.cell s.shared.next s.shared.my_data (some arg) fresh)) v.live)
        (λ x h.
          update_ne s.shared.cell s.shared.next x (some arg) (omega arith)
          ∙ v.unused x (omega arith))
        (subst IsSome (sym (update_self s.shared.cell s.shared.next (some arg))) tt, fresh)
        (omega arith)
        (λ j e x d h l.
          update_ne s.shared.cell s.shared.next x (some arg)
            (some-ne-none s.shared.cell x s.shared.next l free))
        (λ j d. Awaits-no_grace q (s.pc j) refl)
  move-Inv p q m (assign_pointer new) own ahead behind =
      writer-Inv s i v q m (λ j d. (ahead j d).0 refl) refl own.0 v.unused (λ e. own.1 (sym e))
        (omega arith) (λ j e x d h l. refl) (λ j d. Awaits-no_grace q (s.pc j) refl)
  move-Inv p q m (synchronize old) own ahead behind =
      writer-Inv s i v q m (λ j d. (ahead j d).0 refl) refl v.live v.unused (own, omega arith)
        (omega arith) (λ j e x d h l. refl)
        (λ j d old' e e' g k. ground (arith, held-epoch s.shared (s.pc j) e' old' (v.fine j) k))
  move-Inv p q m (grace_period old e since) own ahead behind =
      writer-Inv s i v q m (λ j d. (ahead j d).0 refl) refl v.live v.unused own.0 (omega arith)
        (λ j e x d h l. refl)
        (λ j d old' e' e'' g k.
          let before = (ahead j d).1 old' e e'' (ground arith) k in
          let after = since j e'' (held-period (s.pc j) e'' old' k) in absurd (omega arith))
  move-Inv p q m (kfree old) own ahead behind =
      writer-Inv s i v q m (λ j d. (ahead j d).0 refl) refl
        (subst IsSome (sym (update_ne s.shared.cell old s.shared.my_data none own)) v.live)
        (λ x h. update-none s.shared.cell old x (v.unused x h)) tt (omega arith)
        (λ j e x d h l.
          update_ne s.shared.cell old x none
            (λ same. let before = (ahead j d).1 x 0 e (ground arith) h in absurd (omega arith)))
        (λ j d. Awaits-no_grace q (s.pc j) refl)
  move-Inv p q m spin_unlock own ahead behind =
      reader-Inv s i v q refl tt (λ j d. Awaits-no_held (s.pc j) q refl) refl

  step-Inv :
      (p q : Pc) (m : Shared)
      → s.pc i ≡ p
      → Move s i p m q
      → Inv (record { shared = m; pc = update s.pc i q })
  step-Inv p q m e mv =
      move-Inv p q m mv (subst (Fine s.shared) e (v.fine i))
        (λ j d. subst (λ x. Apart x (s.pc j)) e (v.apart i j d))
        (λ j d. subst (Apart (s.pc j)) e (v.apart j i (λ same. d (sym same))))

init-Inv : Inv init
init-Inv = record {
  live = tt;
  unused = λ p h. ground arith;
  fine = λ i. tt;
  apart = λ i j d. (λ t. cc, Awaits-no_grace outside outside refl);
}

Reach-Inv : {s : System} → Reach s → Inv s
Reach-Inv start = init-Inv
Reach-Inv (later {s} r (go i {p} {q} {m} e mv)) = step-Inv s i (Reach-Inv r) p q m e mv

-- In every state that threads reach, in any order and any number, a reader that has printed twice has printed the same
-- value twice, and no freed memory, however many writers replaced and freed the pointer in between.
pub Reach-prints :
    {s : System}
    → Reach s
    → (i e p : ℕ) (v w : Option ℕ) → s.pc i ≡ printed_twice e p v w
    → (n : ℕ) × (v ≡ some n) × (w ≡ some n)
Reach-prints {s} r i e p v w here =
    let h = subst (Fine s.shared) here ((Reach-Inv r).fine i) in
    let (n, k) = IsSome-value v h.2 in (n, k, h.3 ∙ k)
