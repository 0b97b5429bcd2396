-- ===== src/Grpc/Watch.antt =====
-- server.go over repo.go: what a client that watches an expression sees.
mod Rows
pub mod Turns
use golang_service_architect.Common.{
  ℕ, zero, ◌+◌, ◌≤◌, ◌<◌, ◌≡◌, refl, sym, ap, subst, ◌∙◌, Bool, true, false, not, ◌&&◌, Option,
  none, some, List, [], ◌∷◌, map, Result, ok, err, ◌==◌, ==_iff, Bool-cases, inl, inr, ◌⊎◌, arith,
}
use golang_service_architect.Apperrors.{Error}
use golang_service_architect.Float64.{Float64}
use golang_service_architect.Expression.Task.{Uuid}
use golang_service_architect.Messages.{ExpressionStatus}
use golang_service_architect.Persistent.Tables.{ExpressionRow, Db, is_unfinished}
use golang_service_architect.Persistent.Reads.{Progress, get_expression, get_progress}
use golang_service_architect.Persistent.Evolution.{ExpressionEvolves, Evolves, expression_rank}
use golang_service_architect.Persistent.History.{Reach, Reach-Evolves}
use golang_service_architect.Grpc.Server.{no_progress}
use golang_service_architect.Grpc.Stream.{
  Tick, ticked, StreamEnd, waiting, closed, broken, same_status, is_last, or_no_progress, Update,
  send_or_wait, watch_loop,
}
use golang_service_architect.Grpc.Watch.Rows.{get_expression-Evolves, progress-Evolves}
use golang_service_architect.Grpc.Watch.Turns.{
  same_status→eq, same-both, same-itself, changed-differs, Look, progress_of, seen, looks, latest,
  last_look, last_update, Advances, IsTold, GoesOn, IsUpToDate, turn, silent-turn, open-turn,
  last-turn,
}

module _ (fl : Float64) (id : Uuid) where
  open fl use {F}

  -- The progress is read in the row's database or in a later one.
  abbrev pub IsOrdered : Look F → Type 0
  IsOrdered (b, ok c) = Reach fl b c
  IsOrdered (b, err e) = Unit

  -- Looks that follow one another, while the database goes on.
  abbrev pub Follows : Look F → List (Look F) → Type 0
  Follows l [] = IsOrdered l
  Follows l (k ∷ ks) = IsOrdered l × Reach fl (latest l) k.0 × Follows k ks

  -- The row in the database of the second read.
  latest-row :
      (l : Look F) (e : ExpressionRow F)
      → IsOrdered l
      → get_expression id l.0 ≡ ok e
      → (f : ExpressionRow F) × (get_expression id (latest l) ≡ ok f)
        × (expression_rank e.status ≤ expression_rank f.status)
        × (is_unfinished e.status ≡ false → f ≡ e)
  latest-row (b, ok c) e h found =
      let (f, now, ev) = get_expression-Evolves id b c e (Reach-Evolves fl h) found in
      (f, now, ev.forward, ev.frozen)
  latest-row (b, err x) e h found = (e, found, omega arith, λ settled. refl)

  -- A count that was reached is reached in the database of the second read; and it is what the read
  -- tells, unless it fails.
  latest-count :
      (l : Look F) (most : ℕ)
      → IsOrdered l
      → most ≤ (get_progress id l.0).done
      → (most ≤ (get_progress id (latest l)).done)
        × ((most ≤ (seen id l).done) ⊎ (seen id l ≡ no_progress))
  latest-count (b, ok c) most h reached =
      let more = progress-Evolves id b c (Reach-Evolves fl h) in
      (omega (arith, reached, more), inl (omega (arith, reached, more)))
  latest-count (b, err x) most h reached = (reached, inr refl)

  seen-latest : (l : Look F) → (seen id l).done ≤ (get_progress id (latest l)).done
  seen-latest (b, ok c) = omega arith
  seen-latest (b, err x) = omega arith

  first-IsOrdered : (l : Look F) (ls : List (Look F)) → Follows l ls → IsOrdered l
  first-IsOrdered l [] h = h
  first-IsOrdered l (k ∷ ks) h = h.0

  settled-stays :
      (l : Look F) (ls : List (Look F)) (e : ExpressionRow F)
      → Follows l ls
      → get_expression id l.0 ≡ ok e
      → is_unfinished e.status ≡ false
      → get_expression id (latest (last_look l ls)) ≡ ok e
  settled-stays l [] e h found settled =
      let (f, now, forward, frozen) = latest-row l e h found in now ∙ ap ok (frozen settled)
  settled-stays l (k ∷ ks) e (here, next_, there) found settled =
      let (f, now, forward, frozen) = latest-row l e here found in
      let e_now = now ∙ ap ok (frozen settled) in
      let (g, then, ev) =
        get_expression-Evolves id (latest l) k.0 e (Reach-Evolves fl next_) e_now in
      settled-stays k ks e there (then ∙ ap ok (ev.frozen settled)) settled

  -- The loop behind an update, while the expression was not settled at the last look.
  watch_behind :
      (l : Look F) (ls : List (Look F)) (e : ExpressionRow F) (u : Update F) (most : ℕ)
      → Follows l ls
      → get_expression id l.0 ≡ ok e
      → is_unfinished e.status ≡ true
      → u.0.status ≡ e.status
      → u.1.done ≡ (seen id l).done
      → most ≤ (get_progress id (latest l)).done
      → GoesOn id (last_look l ls) u most (watch_loop (some u.0.status) u.1.done (looks id ls))
  unfolding watch_loop
  watch_behind l [] e u most h found open_ status count reached =
      (tt, (e, found, status, count, open_))
  watch_behind l (k ∷ ks) e u most (here, next_, there) found open_ status count reached =
      let (g, then, e_forward, frozen) = latest-row l e here found in
      let ev = Reach-Evolves fl next_ in
      let (f, now, goes) = get_expression-Evolves id (latest l) k.0 g ev then in
      let p = seen id k in
      let k_ordered = first-IsOrdered k ks there in
      let at_k : most ≤ (get_progress id k.0).done =
        omega (arith, reached, progress-Evolves id (latest l) k.0 ev) in
      let (reached', counted) = latest-count k most k_ordered at_k in
      let u_open : is_unfinished u.0.status ≡ true = ap is_unfinished status ∙ open_ in
      let u_forward : expression_rank u.0.status ≤ expression_rank f.status =
        subst (λ s. expression_rank s ≤ expression_rank f.status) (sym status)
          (omega (arith, e_forward, goes.forward)) in
      elim (Bool-cases (same_status u.0.status f.status && p.done == u.1.done)) [
        | inl same ↦
            let (s_same, d_same) = same-both u.0.status f.status u.1.done p.done same in
            let f_open : is_unfinished f.status ≡ true = ap is_unfinished (sym s_same) ∙ u_open in
            let rest = watch_behind k ks f u most there now f_open s_same (sym d_same) reached' in
            let skips =
              silent-turn (some u.0.status) u.1.done id k ks f now same f_open
              ∙ ap (λ (s : ExpressionStatus). watch_loop (some s) p.done (looks id ks)) (sym s_same)
              ∙ ap (λ (d : ℕ). watch_loop (some u.0.status) d (looks id ks)) d_same in
            subst (GoesOn id (last_look k ks) u most) (sym skips) rest
        | inr changed ↦
            let differs = changed-differs u.0.status f.status u.1.done p.done changed in
            elim (Bool-cases (is_unfinished f.status)) [
              | inr settled ↦
                  subst (GoesOn id (last_look k ks) u most)
                    (sym (last-turn (some u.0.status) u.1.done id k ks f now changed settled))
                    (
                      (
                        u_forward,
                        differs,
                        elim counted [ inl c ↦ inl (c, tt) | inr z ↦ inr (z, tt) ],
                      ),
                      (settled-stays k ks f there now settled, settled),
                    )
              | inl f_open ↦
                  subst (GoesOn id (last_look k ks) u most)
                    (sym (open-turn (some u.0.status) u.1.done id k ks f now changed f_open))
                    (elim counted [
                      | inl c ↦
                          let (later, told) =
                            watch_behind k ks f (f, p) p.done there now f_open refl refl
                              (seen-latest k) in
                          ((u_forward, differs, inl (c, later)), told)
                      | inr z ↦
                          let (later, told) =
                            watch_behind k ks f (f, p) most there now f_open refl refl reached' in
                          ((u_forward, differs, inr (z, later)), told)
                    ])
            ]
      ]

  -- A client watches an expression while the database goes on, in whatever way, also between the
  -- two reads of a turn, of which the second may fail. The first update tells the row. Each later
  -- one differs from the one before in the status or in the count of tasks that are done; its status
  -- is not behind, and its count is not behind the counts before it, or it is the zero value, which
  -- stands for a failed read. While the stream waits, the last update tells the status and the count
  -- that were read last, and the expression was not settled then; once it has closed, the last
  -- update is the settled row, which is the present one; and it does not break. The row is read
  -- without an error at every turn and is there at the first, and sending succeeds.
  pub watch_loop-tells :
      (l : Look F) (ls : List (Look F)) (e : ExpressionRow F)
      → Follows l ls
      → get_expression id l.0 ≡ ok e
      → IsUpToDate id e (last_look l ls) (watch_loop none 0 (looks id (l ∷ ls)))
  watch_loop-tells l ls e h found = elim (Bool-cases (is_unfinished e.status)) [
    | inl open_ ↦
        subst (IsUpToDate id e (last_look l ls)) (sym (open-turn none 0 id l ls e found refl open_))
          (refl, watch_behind l ls e (e, seen id l) _ h found open_ refl refl (seen-latest l))
    | inr settled ↦
        subst (IsUpToDate id e (last_look l ls))
          (sym (last-turn none 0 id l ls e found refl settled))
          (refl, (tt, (settled-stays l ls e h found settled, settled)))
  ]
