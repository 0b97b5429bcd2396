-- ===== src/Persistent/Evolution.antt =====
-- How the rows of the main database (backend/internal/repo/persistent) may change over time.
use golang_service_architect.Common.{
  ℕ, ◌≤◌, ◌≡◌, refl, ap, ◌∙◌, Bool, true, false, not, ◌&&◌, ◌||◌, ◌==◌, Bool-cases, inl, inr, List,
  [], ◌∷◌, ◌++◌, arith,
}
use golang_service_architect.Expression.Task.{TaskStatus, Uuid}
use golang_service_architect.Messages.{ExpressionStatus}
use golang_service_architect.Persistent.Tables.{
  completes, has_task, ExpressionRow, TaskRow, Db, update, is_open, is_unfinished,
}

-- Each row of the first table stands, changed as `R` allows, at its place in the second.
abbrev pub Extends : {A : Type 0} → (A → A → Type 0) → List A → List A → Type 0
Extends R [] ys = Unit
Extends R (x ∷ xs) [] = ⊥
Extends R (x ∷ xs) (y ∷ ys) = R x y × Extends R xs ys

module _ {A : Type 0} (R : A → A → Type 0) where
  pub Extends-refl : ((x : A) → R x x) → (xs : List A) → Extends R xs xs
  Extends-refl same [] = tt
  Extends-refl same (x ∷ xs) = (same x, Extends-refl same xs)

  pub Extends-trans :
      ((x y z : A) → R x y → R y z → R x z)
      → (xs ys zs : List A) → Extends R xs ys
      → Extends R ys zs
      → Extends R xs zs
  Extends-trans both [] ys zs h k = tt
  Extends-trans both (x ∷ xs) [] zs h k = absurd h
  Extends-trans both (x ∷ xs) (y ∷ ys) [] h k = absurd k
  Extends-trans both (x ∷ xs) (y ∷ ys) (z ∷ zs) h k =
      (both x y z h.0 k.0, Extends-trans both xs ys zs h.1 k.1)

  pub Extends-update :
      (test : A → Bool) (change : A → A)
      → ((x : A) → R x x)
      → ((x : A) → test x ≡ true → R x (change x))
      → (xs : List A) → Extends R xs (update test change xs)
  unfolding update
  Extends-update test change same step [] = tt
  Extends-update test change same step (x ∷ xs) =
      let rest = Extends-update test change same step xs in
      elim (Bool-cases (test x)) [ inl h ↦ rw h (step x h, rest) | inr h ↦ rw h (same x, rest) ]

  pub Extends-append : ((x : A) → R x x) → (xs ys : List A) → Extends R xs (xs ++ ys)
  Extends-append same [] ys = tt
  Extends-append same (x ∷ xs) ys = (same x, Extends-append same xs ys)

abbrev pub task_rank : TaskStatus → ℕ
task_rank TaskStatus.pending = 0
task_rank TaskStatus.ready = 1
task_rank TaskStatus.running = 2
task_rank _ = 3

abbrev pub expression_rank : ExpressionStatus → ℕ
expression_rank ExpressionStatus.pending = 0
expression_rank ExpressionStatus.in_progress = 1
expression_rank _ = 2

other-id : (a b c : Bool) → b ≡ true → (a && b) ≡ false → (a && c) ≡ false
other-id true b c o e = cc
other-id false b c o e = refl

pub not-and : (a b : Bool) → (not a && b) ≡ true → (a ≡ false) × (b ≡ true)
not-and true b h = cc
not-and false b h = (refl, h)

pub not-and_intro : (a b : Bool) → a ≡ false → b ≡ true → (not a && b) ≡ true
not-and_intro true b h k = cc
not-and_intro false b h k = k

module _ {F : Type 0} where
  -- A task keeps its identity, moves forward only, and does not change once it is done or failed.
  pub record TaskEvolves (t t' : TaskRow F) : Type 0 where
    pub id : t'.id ≡ t.id
    pub op : t'.op ≡ t.op
    pub dep1 : t'.arg1_task_id ≡ t.arg1_task_id
    pub dep2 : t'.arg2_task_id ≡ t.arg2_task_id
    pub root : t'.is_root ≡ t.is_root
    pub forward : task_rank t.status ≤ task_rank t'.status
    pub frozen : is_open t.status ≡ false → t' ≡ t

  -- An expression likewise.
  pub record ExpressionEvolves (e e' : ExpressionRow F) : Type 0 where
    pub id : e'.id ≡ e.id
    pub raw : e'.raw ≡ e.raw
    pub forward : expression_rank e.status ≤ expression_rank e'.status
    pub frozen : is_unfinished e.status ≡ false → e' ≡ e

  pub TaskEvolves-refl : (t : TaskRow F) → TaskEvolves t t
  TaskEvolves-refl t = record {
    id = refl;
    op = refl;
    dep1 = refl;
    dep2 = refl;
    root = refl;
    forward = omega arith;
    frozen = λ h. refl;
  }

  pub TaskEvolves-trans : (t u v : TaskRow F) → TaskEvolves t u → TaskEvolves u v → TaskEvolves t v
  TaskEvolves-trans t u v h k = record {
    id = k.id ∙ h.id;
    op = k.op ∙ h.op;
    dep1 = k.dep1 ∙ h.dep1;
    dep2 = k.dep2 ∙ h.dep2;
    root = k.root ∙ h.root;
    forward = omega (arith, h.forward, k.forward);
    frozen =
        λ f. let e = h.frozen f in k.frozen (ap (λ (w : TaskRow F). is_open w.status) e ∙ f) ∙ e;
  }

  pub ExpressionEvolves-refl : (e : ExpressionRow F) → ExpressionEvolves e e
  ExpressionEvolves-refl e = record {
    id = refl;
    raw = refl;
    forward = omega arith;
    frozen = λ h. refl;
  }

  pub ExpressionEvolves-trans :
      (e f g : ExpressionRow F)
      → ExpressionEvolves e f
      → ExpressionEvolves f g
      → ExpressionEvolves e g
  ExpressionEvolves-trans e f g h k = record {
    id = k.id ∙ h.id;
    raw = k.raw ∙ h.raw;
    forward = omega (arith, h.forward, k.forward);
    frozen = λ u.
        let p = h.frozen u in
        k.frozen (ap (λ (w : ExpressionRow F). is_unfinished w.status) p ∙ u) ∙ p;
  }

  -- No row of the task is open, so neither a result nor a failure of it has an effect.
  abbrev pub has_no_open : Uuid → List (TaskRow F) → Bool
  has_no_open id [] = true
  has_no_open id (t ∷ ts) = not (completes id t) && has_no_open id ts

  -- The task stands in the table and is settled.
  abbrev pub IsSettled : Uuid → List (TaskRow F) → Type 0
  IsSettled id ts = (has_task id ts ≡ true) × (has_no_open id ts ≡ true)

  stays-closed :
      (id : Uuid) (t t' : TaskRow F)
      → TaskEvolves t t'
      → completes id t ≡ false
      → completes id t' ≡ false
  stays-closed id t t' h e = elim (Bool-cases (is_open t.status)) [
    | inl o ↦ rw h.id (other-id (t.id == id) (is_open t.status) (is_open t'.status) o e)
    | inr f ↦ ap (completes id) (h.frozen f) ∙ e
  ]

  -- Both tables of a database evolve, and a settled task gets no second row that is open.
  pub record Evolves (db db' : Db F) : Type 0 where
    pub tasks : Extends TaskEvolves db.tasks db'.tasks
    pub expressions : Extends ExpressionEvolves db.expressions db'.expressions
    pub settled : (id : Uuid) → IsSettled id db.tasks → IsSettled id db'.tasks

  pub settled-update :
      (test : TaskRow F → Bool) (change : TaskRow F → TaskRow F)
      → ((t : TaskRow F) → test t ≡ true → TaskEvolves t (change t))
      → (id : Uuid) (ts : List (TaskRow F))
      → (has_task id (update test change ts) ≡ has_task id ts)
        × (has_no_open id ts ≡ true → has_no_open id (update test change ts) ≡ true)
  unfolding update
  settled-update test change step id [] = (refl, λ h. h)
  settled-update test change step id (t ∷ ts) =
      let rest = settled-update test change step id ts in
      elim (Bool-cases (test t)) [
        | inl h ↦
            let e = step t h in
            rw h (
              ap (λ i. (i == id) || has_task id (update test change ts)) e.id
                  ∙ ap (λ b. (t.id == id) || b) rest.0,
              λ all.
                  let (here, there) = not-and _ _ all in
                  not-and_intro _ _ (stays-closed id t (change t) e here) (rest.1 there),
            )
        | inr h ↦ rw h (
          ap (λ b. (t.id == id) || b) rest.0,
          λ all. let (here, there) = not-and _ _ all in not-and_intro _ _ here (rest.1 there),
        )
      ]

  pub Evolves-refl : (db : Db F) → Evolves db db
  Evolves-refl db = record {
    tasks = Extends-refl TaskEvolves TaskEvolves-refl db.tasks;
    expressions = Extends-refl ExpressionEvolves ExpressionEvolves-refl db.expressions;
    settled = λ id h. h;
  }

  pub Evolves-trans : (a b c : Db F) → Evolves a b → Evolves b c → Evolves a c
  Evolves-trans a b c h k = record {
    tasks = Extends-trans TaskEvolves TaskEvolves-trans a.tasks b.tasks c.tasks h.tasks k.tasks;
    expressions =
        Extends-trans ExpressionEvolves ExpressionEvolves-trans a.expressions b.expressions
          c.expressions h.expressions k.expressions;
    settled = λ id s. k.settled id (h.settled id s);
  }

  -- A change of open tasks that keeps their identity and moves them forward.
  pub task-Evolves :
      (test : TaskRow F → Bool) (change : TaskRow F → TaskRow F) (db : Db F)
      → ((t : TaskRow F) → test t ≡ true → TaskEvolves t (change t))
      → Evolves db (record db { tasks = update test change db.tasks })
  task-Evolves test change db step = record {
    tasks = Extends-update TaskEvolves test change TaskEvolves-refl step db.tasks;
    expressions = Extends-refl ExpressionEvolves ExpressionEvolves-refl db.expressions;
    settled = λ id h.
        let (same, keeps) = settled-update test change step id db.tasks in (same ∙ h.0, keeps h.1);
  }

  pub expression-Evolves :
      (test : ExpressionRow F → Bool) (change : ExpressionRow F → ExpressionRow F) (db : Db F)
      → ((e : ExpressionRow F) → test e ≡ true → ExpressionEvolves e (change e))
      → Evolves db (record db { expressions = update test change db.expressions })
  expression-Evolves test change db step = record {
    tasks = Extends-refl TaskEvolves TaskEvolves-refl db.tasks;
    expressions =
        Extends-update ExpressionEvolves test change ExpressionEvolves-refl step db.expressions;
    settled = λ id h. h;
  }
