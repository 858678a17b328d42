-- ===== src/Runtime/Dependencies/Ancestors.antt =====
-- src/app/task_runtime_repository.cpp: the recursive query of AddDependency, against the paths in
-- the dependency table.
use photobridge.Base.{
  Bool, Bool-cases, Bytes, List, List-cases, [], ap, arith, beq_refl, exists, false, if◌then◌else◌,
  inl, inr, length, length-append, list_beq_iff, list_eq, nat_eq, not, option_eq, refl, string_eq,
  subst, suc, sym, true, zero, ℕ, ◌&&◌, ◌++◌, ◌+◌, ◌<◌, ◌==◌, ◌||◌, ◌↔◌, ◌∷◌, ◌≡◌, ◌≤◌, ◌⊎◌,
}
use photobridge.Runtime.Tables.{DependencyRow, Tables}
use photobridge.Runtime.Dependencies.{
  Search, ancestors, ancestors_loop, contains, enqueue, is_dependency, offer, parents, would_cycle,
}

abbrev pub Edge : List DependencyRow → Bytes → Bytes → Bytes → Type 0
Edge deps plan u v = exists (is_dependency plan u v) deps ≡ true

-- The second task can be reached from the first along dependencies of the plan.
pub data Reach (deps : List DependencyRow) (plan : Bytes) (src : Bytes) : Bytes → Type 0 where
  here : Reach deps plan src src
  step : {u v : Bytes} → Reach deps plan src u → Edge deps plan u v → Reach deps plan src v

contains-parents :
    (deps : List DependencyRow) (plan u v : Bytes)
    → contains v (parents deps plan u) ≡ exists (is_dependency plan u v) deps
unfolding parents
contains-parents [] plan u v = refl
contains-parents (d ∷ ds) plan u v = ground (arith, contains-parents ds plan u v)

contains-snoc :
    (v x : Bytes) (xs : List Bytes) → contains v (xs ++ x ∷ []) ≡ (contains v xs || x == v)
contains-snoc v x [] = ground arith
contains-snoc v x (y ∷ ys) = ground (arith, contains-snoc v x ys)

same_contains :
    (x v : Bytes) (rows : List Bytes) → (x == v) ≡ true → contains x rows ≡ contains v rows
same_contains x v rows h = ap (λ (w : Bytes). contains w rows) ((list_beq_iff x v).0 h)

offer-rows :
    (x : Bytes) (s : Search) (v : Bytes)
    → contains v (offer x s).rows ≡ (contains v s.rows || x == v)
unfolding offer
offer-rows x s v = elim (Bool-cases (contains x s.rows)) [
  | inl e ↦ rw e (ground (arith, same_contains x v s.rows))
  | inr e ↦ rw e (ground arith)
]

offer-queue :
    (x : Bytes) (s : Search) (v : Bytes)
    → contains v (offer x s).queue ≡ (contains v s.queue || x == v && not (contains v s.rows))
unfolding offer
offer-queue x s v = elim (Bool-cases (contains x s.rows)) [
  | inl e ↦ rw e (ground (arith, same_contains x v s.rows))
  | inr e ↦ rw e (ground (arith, same_contains x v s.rows, contains-snoc v x s.queue))
]

enqueue-rows :
    (xs : List Bytes) (s : Search) (v : Bytes)
    → contains v (enqueue xs s).rows ≡ (contains v s.rows || contains v xs)
unfolding enqueue
enqueue-rows [] s v = ground arith
enqueue-rows (x ∷ xs) s v = ground (arith, enqueue-rows xs (offer x s) v, offer-rows x s v)

enqueue-queue :
    (xs : List Bytes) (s : Search) (v : Bytes)
    → contains v (enqueue xs s).queue
      ≡ (contains v s.queue || contains v xs && not (contains v s.rows))
unfolding enqueue
enqueue-queue [] s v = ground arith
enqueue-queue (x ∷ xs) s v =
    ground (arith, enqueue-queue xs (offer x s) v, offer-rows x s v, offer-queue x s v)

-- Dependencies on tasks that were not produced yet.
unseen : List DependencyRow → List Bytes → ℕ
unseen [] rows = 0
unseen (d ∷ ds) rows = (if contains d.depends_on_task_id rows then 0 else 1) + unseen ds rows

is_target : Bytes → DependencyRow → Bool
is_target v d = d.depends_on_task_id == v

unseen-le : (deps : List DependencyRow) (rows : List Bytes) → unseen deps rows ≤ length deps
unfolding unseen
unseen-le [] rows = omega arith
unseen-le (d ∷ ds) rows = ground (arith, unseen-le ds rows)

unseen-cons :
    (deps : List DependencyRow) (x : Bytes) (rows : List Bytes)
    → unseen deps (x ∷ rows) ≤ unseen deps rows
unfolding unseen
unseen-cons [] x rows = omega arith
unseen-cons (d ∷ ds) x rows = ground (arith, unseen-cons ds x rows)

unseen-falls :
    (deps : List DependencyRow) (x : Bytes) (rows : List Bytes)
    → exists (is_target x) deps ≡ true
    → contains x rows ≡ false
    → unseen deps (x ∷ rows) < unseen deps rows
unfolding unseen is_target
unseen-falls [] x rows h n = cc
unseen-falls (d ∷ ds) x rows h n = elim (Bool-cases (d.depends_on_task_id == x)) [
  | inl e ↦ ground (
    arith,
    unseen-cons ds x rows,
    same_contains d.depends_on_task_id x rows,
    same_contains x d.depends_on_task_id (x ∷ []),
    list_beq_iff x d.depends_on_task_id,
    list_beq_iff d.depends_on_task_id x,
  )
  | inr e ↦ ground (arith, unseen-falls ds x rows)
]

contains→target :
    (deps : List DependencyRow) (plan u v : Bytes)
    → contains v (parents deps plan u) ≡ true
    → exists (is_target v) deps ≡ true
unfolding parents is_target
contains→target [] plan u v h = cc
contains→target (d ∷ ds) plan u v h = ground (arith, contains→target ds plan u v)

work : List DependencyRow → Search → ℕ
work deps s = unseen deps s.rows + length s.queue

work-offer :
    (deps : List DependencyRow) (x : Bytes) (s : Search)
    → exists (is_target x) deps ≡ true
    → work deps (offer x s) ≤ work deps s
unfolding work offer
work-offer deps x s h = elim (Bool-cases (contains x s.rows)) [
  | inl e ↦ rw e (omega arith)
  | inr e ↦ rw e (omega (arith, unseen-falls deps x s.rows h e, length-append s.queue (x ∷ [])))
]

work-enqueue :
    (deps : List DependencyRow) (xs : List Bytes) (s : Search)
    → ((v : Bytes) → contains v xs ≡ true → exists (is_target v) deps ≡ true)
    → work deps (enqueue xs s) ≤ work deps s
unfolding enqueue
work-enqueue deps [] s h = omega arith
work-enqueue deps (x ∷ xs) s h = omega (
  arith,
  work-enqueue deps xs (offer x s) (λ v k. h v (ground arith)),
  work-offer deps x s (h x (ground (arith, beq_refl x))),
)

-- What every round keeps: the rows are reached, and what they depend on is a row unless they are
-- still queued.
record Inv (deps : List DependencyRow) (plan src : Bytes) (s : Search) : Type 0 where
  source : contains src s.rows ≡ true
  queued : (v : Bytes) → contains v s.queue ≡ true → contains v s.rows ≡ true
  sound : (v : Bytes) → contains v s.rows ≡ true → Reach deps plan src v
  closed :
      (u v : Bytes)
      → contains u s.rows ≡ true
      → Edge deps plan u v
      → (contains u s.queue ≡ true) ⊎ (contains v s.rows ≡ true)

module _ (deps : List DependencyRow) (plan src : Bytes) where
  Inv-start : Inv deps plan src (record { rows = src ∷ []; queue = src ∷ [] })
  Inv-start = record {
    source = ground (arith, beq_refl src);
    queued = λ v q. q;
    sound = λ v h. subst (Reach deps plan src) ((list_beq_iff src v).0 (ground arith)) here;
    closed = λ u v h e. inl h;
  }

  Inv-next :
      (s : Search) (x : Bytes) (rest : List Bytes)
      → s.queue ≡ x ∷ rest
      → Inv deps plan src s
      → Inv deps plan src (enqueue (parents deps plan x) (record s { queue = rest }))
  Inv-next s x rest e inv =
      let s' : Search = record s { queue = rest } in
      let rows = λ (v : Bytes). enqueue-rows (parents deps plan x) s' v in
      let queue = λ (v : Bytes). enqueue-queue (parents deps plan x) s' v in
      let edges = λ (v : Bytes). contains-parents deps plan x v in
      let popped : (v : Bytes) → contains v s.queue ≡ (x == v || contains v rest) =
        λ v. ap (contains v) e in
      record {
        source = ground (arith, rows src, inv.source);
        queued = λ v q. ground (arith, rows v, queue v, inv.queued v, popped v);
        sound = λ v h. elim (Bool-cases (contains v s.rows)) [
          | inl r ↦ inv.sound v r
          | inr r ↦
              step (inv.sound x (inv.queued x (ground (arith, popped x, beq_refl x))))
                (ground (arith, rows v, edges v))
        ];
        closed = λ u v h k. elim (Bool-cases (x == u)) [
          | inl q ↦
              let k' : Edge deps plan x v =
                subst (λ (w : Bytes). Edge deps plan w v) (sym ((list_beq_iff x u).0 q)) k in
              inr (ground (arith, rows v, edges v))
          | inr q ↦ ground (arith, rows u, rows v, queue u, popped u, inv.closed u v)
        ];
      }

  loop-Inv :
      (fuel : ℕ) (s : Search)
      → work deps s ≤ fuel
      → Inv deps plan src s
      → Inv deps plan src (ancestors_loop deps plan fuel s)
        × ((ancestors_loop deps plan fuel s).queue ≡ [])
  unfolding ancestors_loop work
  loop-Inv zero s l inv = elim (List-cases s.queue) [
    | inl e ↦ (inv, e)
    | inr (x, rest, e) ↦ absurd (omega (arith, ap length e))
  ]
  loop-Inv (suc fuel) s l inv = elim (List-cases s.queue) [
    | inl e ↦ rw e (subst (λ s. Inv deps plan src s) (ap (λ q. record s { queue = q }) e) inv, refl)
    | inr (x, rest, e) ↦ rw e (
        loop-Inv fuel (enqueue (parents deps plan x) (record s { queue = rest }))
          (omega (
            arith,
            ap length e,
            work-enqueue deps (parents deps plan x) (record s { queue = rest })
                (contains→target deps plan x),
          ))
          (Inv-next s x rest e inv))
  ]

  ancestors-Inv :
      Inv deps plan src (ancestors deps plan src) × ((ancestors deps plan src).queue ≡ [])
  unfolding ancestors work
  ancestors-Inv =
      loop-Inv (length deps + 1) (record { rows = src ∷ []; queue = src ∷ [] })
        (omega (arith, unseen-le deps (src ∷ []))) Inv-start

  complete : {v : Bytes} → Reach deps plan src v → contains v (ancestors deps plan src).rows ≡ true
  complete here = ancestors-Inv.0.source
  complete (step {u} {v} p edge) = elim (ancestors-Inv.0.closed u v (complete p) edge) [
    | inl q ↦ absurd (cc (ap (contains u) ancestors-Inv.1))
    | inr h ↦ h
  ]

-- The recursive query of AddDependency finds the task exactly where it can be reached from the one
-- that it is to depend on, along the dependencies that the plan has.
pub would_cycle_iff :
    (plan task depends_on : Bytes) (t : Tables)
    → (would_cycle plan task depends_on t ≡ true) ↔ Reach t.dependencies plan depends_on task
unfolding would_cycle
would_cycle_iff plan task depends_on t = (
  (ancestors-Inv t.dependencies plan depends_on).0.sound task,
  complete t.dependencies plan depends_on,
)
