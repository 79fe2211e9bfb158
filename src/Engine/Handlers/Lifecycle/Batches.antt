-- ===== src/Engine/Handlers/Lifecycle/Batches.antt =====
-- How an update goes through its plan.
use mathlib.Core.List.{append_assoc, append-nil}
use senlin.Prelude.{
  ℕ, ◌≡◌, ◌≢◌, refl, sym, ap, ◌∙◌, ◌⊎◌, inl, inr, Option, some, List, [], ◌∷◌, ◌++◌, map,
}
use senlin.Db.{ActionName, node_update}
use senlin.Engine.Results.{ActionResult, res_ok, res_error, res_cancel, res_timeout, res_retry}
use senlin.Engine.Handlers.{World, Setting, start_children}
use senlin.Engine.Handlers.ScaleIn.{Returns}
use senlin.Engine.Handlers.Lifecycle.{run_children, after_batch, update_batches}

-- The handler alone makes derived actions ready, the wait does not.
abbrev pub KeepsStarted : Setting → Type 0
KeepsStarted setting =
    (w : World) (result : ActionResult) (w' : World)
    → setting.wait w ≡ some (result, w')
    → w'.started ≡ w.started

-- The updates of the nodes of these batches, in their order.
abbrev pub updates : List (List ℕ) → List (ActionName × ℕ)
updates [] = []
updates (batch ∷ rest) = map (λ i. (node_update, i)) batch ++ updates rest

-- The first batches of a plan have run from a world to another, with that result: each is waited for
-- when its updates have been started, the next follows a wait that went well, and a wait that did not
-- ends the update with its result. A batch without nodes is passed over.
pub data Course (setting : Setting)
    : List (List ℕ) → World → List (List ℕ) → List (List ℕ) → ActionResult → World → Type 0 where
  finished : {w : World} → Course setting [] w [] [] res_ok w
  without_nodes :
      {plan ran left : List (List ℕ)} {w w' : World} {result : ActionResult}
      → Course setting plan w ran left result w'
      → Course setting ([] ∷ plan) w ([] ∷ ran) left result w'
  went_well :
      {i : ℕ} {is : List ℕ} {plan ran left : List (List ℕ)} {w w1 w' : World}
      {result : ActionResult}
      → setting.wait (record w { started = w.started ++ map (λ j. (node_update, j)) (i ∷ is) })
        ≡ some (res_ok, w1)
      → Course setting plan w1 ran left result w'
      → Course setting ((i ∷ is) ∷ plan) w ((i ∷ is) ∷ ran) left result w'
  failed :
      {i : ℕ} {is : List ℕ} {plan : List (List ℕ)} {w w' : World} {result : ActionResult}
      → setting.wait (record w { started = w.started ++ map (λ j. (node_update, j)) (i ∷ is) })
        ≡ some (result, w')
      → result ≢ res_ok
      → Course setting ((i ∷ is) ∷ plan) w ((i ∷ is) ∷ []) plan result w'

-- An update ends, after the first batches of its plan, with their updates started, and either the
-- whole plan has run and the result is that of a success, or it is another.
abbrev pub Runs : Setting → List (List ℕ) → World → Type 0
Runs setting plan w =
    (result : ActionResult) × (w' : World) × (ran : List (List ℕ)) × (left : List (List ℕ))
    × (update_batches setting plan w ≡ some (result, w'))
    × (ran ++ left ≡ plan)
    × (w'.started ≡ w.started ++ updates ran)
    × (((left ≡ []) × (result ≡ res_ok)) ⊎ (result ≢ res_ok))
    × Course setting plan w ran left result w'

-- What follows a batch.
after_batch-cases :
    (result : ActionResult)
    → (result ≡ res_ok)
      ⊎ ((result ≢ res_ok)
          × ((rest : World → Option (ActionResult × World)) (w : World)
              → after_batch rest (result, w) ≡ some (result, w)))
unfolding after_batch
after_batch-cases res_ok = inl refl
after_batch-cases res_error = inr (λ e. cc, λ rest w. refl)
after_batch-cases res_retry = inr (λ e. cc, λ rest w. refl)
after_batch-cases res_cancel = inr (λ e. cc, λ rest w. refl)
after_batch-cases res_timeout = inr (λ e. cc, λ rest w. refl)

ok_wait :
    {o : Option (ActionResult × World)} {result : ActionResult} {w : World}
    → o ≡ some (result, w)
    → result ≡ res_ok
    → o ≡ some (res_ok, w)
ok_wait {w = w} e good = e ∙ ap (λ r. some (r, w)) good

module _ (setting : Setting) where
  update_batches-empty :
      (plan : List (List ℕ)) (w : World)
      → update_batches setting ([] ∷ plan) w ≡ update_batches setting plan w
  unfolding update_batches run_children after_batch
  update_batches-empty plan w = refl

  update_batches-step :
      (i : ℕ) (is : List ℕ) (plan : List (List ℕ)) (w : World) (ended : ActionResult × World)
      → setting.wait (start_children node_update (i ∷ is) w) ≡ some ended
      → update_batches setting ((i ∷ is) ∷ plan) w ≡ after_batch (update_batches setting plan) ended
  unfolding update_batches run_children
  update_batches-step i is plan w ended e = rw e refl

  after-ok :
      (rest : World → Option (ActionResult × World)) (result : ActionResult) (w : World)
      → result ≡ res_ok
      → after_batch rest (result, w) ≡ rest w
  unfolding after_batch
  after-ok rest result w e = rw e refl

  -- Where the wait returns, and makes no derived action ready itself, an update by a plan ends: the
  -- batches that have run are the first of the plan, the updates that it has started are those of
  -- their nodes, in their order, and either the whole plan has run and the result is that of a
  -- success, or it is another. A batch runs only when the wait for each before it went well, and the
  -- first wait that does not go well ends the update, with its result, and leaves the rest of the plan.
  pub update_batches-Runs :
      (plan : List (List ℕ)) (w : World)
      → Returns setting
      → KeepsStarted setting
      → Runs setting plan w
  unfolding update_batches
  update_batches-Runs [] w returns keeps =
      (res_ok, w, [], [], refl, refl, sym (append-nil w.started), inl (refl, refl), finished)
  update_batches-Runs ([] ∷ plan) w returns keeps =
      let (result, w', ran, left, e, parts, started, ends, course) =
        update_batches-Runs plan w returns keeps in
      (
        result,
        w',
        [] ∷ ran,
        left,
        update_batches-empty plan w ∙ e,
        ap (λ l. [] ∷ l) parts,
        started,
        ends,
        without_nodes course,
      )
  update_batches-Runs ((i ∷ is) ∷ plan) w returns keeps =
      let w1 = start_children node_update (i ∷ is) w in
      let (result, w2, waited) = returns w1 in
      let step = update_batches-step i is plan w (result, w2) waited in
      let same : w2.started ≡ w.started ++ map (λ j. (node_update, j)) (i ∷ is) =
        keeps w1 result w2 waited in
      elim (after_batch-cases result) [
        | inr (bad, stops) ↦ (
          result,
          w2,
          (i ∷ is) ∷ [],
          plan,
          step ∙ stops (update_batches setting plan) w2,
          refl,
          same ∙ ap (λ l. w.started ++ l) (sym (append-nil (map (λ j. (node_update, j)) (i ∷ is)))),
          inr bad,
          failed waited bad,
        )
        | inl good ↦
            let (r, w', ran, left, e, parts, started, ends, course) =
              update_batches-Runs plan w2 returns keeps in
            (
              r,
              w',
              (i ∷ is) ∷ ran,
              left,
              step ∙ after-ok (update_batches setting plan) result w2 good ∙ e,
              ap (λ l. (i ∷ is) ∷ l) parts,
              started
                  ∙ ap (λ l. l ++ updates ran) same
                  ∙ append_assoc w.started (map (λ j. (node_update, j)) (i ∷ is)) (updates ran),
              ends,
              went_well (ok_wait waited good) course,
            )
      ]
