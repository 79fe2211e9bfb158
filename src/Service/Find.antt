-- ===== src/Service/Find.antt =====
-- How a row is found by its id, its name or a prefix of its id: `find` of senlin/objects/cluster.py
-- and senlin/objects/node.py, with the queries of senlin/db/sqlalchemy/api.py that it calls. Ids,
-- names and projects are numbers; which texts look like a UUID and which ids a `LIKE` matches are
-- parameters.
pub mod Named
use senlin.Prelude.{
  ℕ, ◌≡◌, ◌≢◌, refl, ◌⊎◌, inl, inr, Bool, true, false, ◌&&◌, Option, none, some, List, [], ◌∷◌,
  ◌==◌, if◌then◌else◌, arith, Bool-cases,
}

-- A row, `ResourceNotFound`, or `MultipleChoices`.
pub data Found {ℓ} (A : Type ℓ) : Type ℓ where
  found : A → Found A
  not_found multiple_choices : Found A

-- The keys of a row that a request may name it by.
pub record Key : Type 0 where
  pub id : ℕ
  pub name : ℕ
  pub project : ℕ

-- `uuidutils.is_uuid_like`, and `model.id.like('%s%%' % short_id)`.
pub record Texts : Type 0 where
  pub is_uuid_like : ℕ → Bool
  pub is_prefix : ℕ → ℕ → Bool

module _ {ℓ} {A : Type ℓ} where
  -- `query.filter(...)`
  unfoldable pub filter_by : (A → Bool) → List A → List A
  filter_by test [] = []
  filter_by test (r ∷ rs) = let rest = filter_by test rs in if test r then r ∷ rest else rest

  -- The end of `query_by_name` and `query_by_short_id`.
  unfoldable pub one_of : List A → Found A
  one_of [] = not_found
  one_of (r ∷ []) = found r
  one_of (r ∷ s ∷ rs) = multiple_choices

  -- `query.get(...)`
  unfoldable pub first_of : List A → Option A
  first_of [] = none
  first_of (r ∷ rs) = some r

  -- `if not node:` before the second query
  unfoldable pub or_query : Found A → Found A → Found A
  or_query not_found rest = rest
  or_query o rest = o

  module _ (key : A → Key) (texts : Texts) (caller : ℕ) where
    -- `if project_safe: q = q.filter_by(project=context.project)`
    unfoldable pub in_project : (Key → Bool) → A → Bool
    in_project test r = test (key r) && ((key r).project == caller)

    unfoldable pub query_by_name : ℕ → List A → Found A
    unfolding filter_by one_of in_project
    query_by_name name rows = one_of (filter_by (in_project (λ k. k.name == name)) rows)

    unfoldable pub query_by_short_id : ℕ → List A → Found A
    unfolding filter_by one_of in_project
    query_by_short_id short_id rows =
        one_of (filter_by (in_project (λ k. texts.is_prefix short_id k.id)) rows)

    -- `cluster_get` and `node_get`
    unfoldable pub visible : Option A → Found A
    visible none = not_found
    visible (some r) = if (key r).project == caller then found r else not_found

    unfoldable pub get : ℕ → List A → Found A
    unfolding filter_by first_of visible
    get identity rows = visible (first_of (filter_by (λ r. (key r).id == identity) rows))

    unfoldable pub find : ℕ → List A → Found A
    unfolding query_by_name query_by_short_id get or_query
    find identity rows =
        if texts.is_uuid_like identity
        then or_query (get identity rows) (query_by_name identity rows)
        else or_query (query_by_name identity rows) (query_by_short_id identity rows)
