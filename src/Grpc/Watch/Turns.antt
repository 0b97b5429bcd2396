-- ===== src/Grpc/Watch/Turns.antt =====
-- server.go: the two reads of a turn of a watch, and what a turn does with them.
use golang_service_architect.Common.{
  ℕ, ◌≤◌, ◌≡◌, refl, sym, subst, ◌∙◌, true, false, not, ◌&&◌, Option, none, some, List, [], ◌∷◌,
  map, Result, ok, err, ◌==◌, ==_iff, Bool-cases, inl, inr, ◌⊎◌, arith,
}
use golang_service_architect.Apperrors.{Error}
use golang_service_architect.Expression.Task.{Uuid}
use golang_service_architect.Messages.{ExpressionStatus}
use golang_service_architect.Persistent.Tables.{ExpressionRow, Db, is_unfinished}
use golang_service_architect.Persistent.Reads.{Progress, get_expression, get_progress}
use golang_service_architect.Persistent.Evolution.{expression_rank}
use golang_service_architect.Grpc.Server.{no_progress}
use golang_service_architect.Grpc.Stream.{
  Tick, ticked, StreamEnd, waiting, closed, broken, same_status, is_last, or_no_progress, Update,
  send_or_wait, watch_loop,
}

pub same_status→eq : (s t : ExpressionStatus) → same_status s t ≡ true → s ≡ t
same_status→eq s t h = ground arith

pub same-both :
    (s t : ExpressionStatus) (d c : ℕ) → (same_status s t && c == d) ≡ true → (s ≡ t) × (c ≡ d)
same-both s t d c h = elim (Bool-cases (same_status s t)) [
  | inl e ↦ (same_status→eq s t e, (==_iff c d).0 (rw (e) at h))
  | inr e ↦ absurd (let no = rw (e) at h in cc)
]

pub same-itself : (s : ExpressionStatus) (d : ℕ) → (same_status s s && d == d) ≡ true
same-itself s d = ground arith

pub changed-differs :
    (s t : ExpressionStatus) (d c : ℕ) → (same_status s t && c == d) ≡ false → ¬ ((s ≡ t) × (d ≡ c))
changed-differs s t d c changed (p, q) =
    let same =
      subst (λ (x : ExpressionStatus). (same_status s x && c == d) ≡ true) p
        (subst (λ x. (same_status s s && x == d) ≡ true) q (same-itself s d)) in
    let no = sym same ∙ changed in cc

-- The two reads of a turn: the row is read in a database, and then the progress in one too, or
-- that read fails.
abbrev pub Look : Type 0 → Type 0
Look F = Db F × Result Error (Db F)

module _ {F : Type 0} where
  abbrev pub progress_of : Uuid → Result Error (Db F) → Result Error Progress
  progress_of id (ok c) = ok (get_progress id c)
  progress_of id (err e) = err e

  abbrev pub seen : Uuid → Look F → Progress
  seen id l = or_no_progress (progress_of id l.1)

  -- What the loop meets at its turns, where it can send.
  abbrev pub looks : Uuid → List (Look F) → List (Tick F)
  looks id = map (λ l. ticked (get_expression id l.0) (progress_of id l.1) none)

  abbrev pub latest : Look F → Db F
  latest (b, ok c) = c
  latest (b, err e) = b

  abbrev pub last_look : Look F → List (Look F) → (Look F)
  last_look l [] = l
  last_look l (k ∷ ks) = last_look k ks

  abbrev pub last_update : Update F → List (Update F) → Update F
  last_update u [] = u
  last_update u (v ∷ us) = last_update v us

  -- Each update differs from the one before in the status or in the count, and its status is not
  -- behind. Its count is not behind any count before it, or it is the zero value of a failed read.
  abbrev pub Advances : Update F → ℕ → List (Update F) → Type 0
  Advances u most [] = Unit
  Advances u most (v ∷ us) =
      (expression_rank u.0.status ≤ expression_rank v.0.status)
      × (¬ ((u.0.status ≡ v.0.status) × (u.1.done ≡ v.1.done)))
      × (((most ≤ v.1.done) × Advances v v.1.done us) ⊎ ((v.1 ≡ no_progress) × Advances v most us))

  -- A stream that waits has told the status and the count that it read last; one that has closed
  -- has told the settled row, which is the present one.
  abbrev pub IsTold : Uuid → Look F → Update F → StreamEnd → Type 0
  IsTold id l u waiting =
      (e : ExpressionRow F) × (get_expression id l.0 ≡ ok e)
      × (u.0.status ≡ e.status)
      × (u.1.done ≡ (seen id l).done)
      × (is_unfinished e.status ≡ true)
  IsTold id l u closed =
      (get_expression id (latest l) ≡ ok u.0) × (is_unfinished u.0.status ≡ false)
  IsTold id l u (broken e) = ⊥

  -- What is to hold of the loop's answer behind an update.
  abbrev pub GoesOn : Uuid → Look F → Update F → ℕ → List (Update F) × StreamEnd → Type 0
  GoesOn id l u most (us, end) = Advances u most us × IsTold id l (last_update u us) end

  -- A first update tells the row, and the loop goes on behind it.
  abbrev pub IsUpToDate : Uuid → ExpressionRow F → Look F → List (Update F) × StreamEnd → Type 0
  IsUpToDate id e l ([], end) = ⊥
  IsUpToDate id e l (u ∷ us, end) = (u.0 ≡ e) × GoesOn id l u u.1.done (us, end)

  module _ (last : Option ExpressionStatus) (d : ℕ) (id : Uuid) (l : Look F) (ls : List (Look F))
      (f : ExpressionRow F) (found : get_expression id l.0 ≡ ok f) where
    pub turn :
        watch_loop last d (looks id (l ∷ ls))
        ≡ send_or_wait
            (not (is_last last f.status && (seen id l).done == d))
            none
            (not (is_unfinished f.status))
            (f, seen id l)
            (watch_loop (some f.status) (seen id l).done (looks id ls))
    unfolding watch_loop
    turn = rw (found) refl

    pub silent-turn :
        (is_last last f.status && (seen id l).done == d) ≡ true
        → is_unfinished f.status ≡ true
        → watch_loop last d (looks id (l ∷ ls))
          ≡ watch_loop (some f.status) (seen id l).done (looks id ls)
    silent-turn same open_ = rw (turn, same, open_) refl

    pub open-turn :
        (is_last last f.status && (seen id l).done == d) ≡ false
        → is_unfinished f.status ≡ true
        → watch_loop last d (looks id (l ∷ ls)) ≡ (
          (f, seen id l) ∷ (watch_loop (some f.status) (seen id l).done (looks id ls)).0,
          (watch_loop (some f.status) (seen id l).done (looks id ls)).1,
        )
    open-turn changed open_ = rw (turn, changed, open_) refl

    pub last-turn :
        (is_last last f.status && (seen id l).done == d) ≡ false
        → is_unfinished f.status ≡ false
        → watch_loop last d (looks id (l ∷ ls)) ≡ ((f, seen id l) ∷ [], closed)
    last-turn changed settled = rw (turn, changed, settled) refl
