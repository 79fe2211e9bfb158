-- ===== src/Service/Find/Named.antt =====
-- Which rows `find` may answer with.
use mathlib.Core.List.{Memᴰ}
use senlin.Prelude.{
  ℕ, ◌≡◌, refl, ◌⊎◌, inl, inr, Bool, true, false, some, List, [], ◌∷◌, ◌==◌, arith, Bool-cases,
}
use senlin.Service.Find.{
  Found, found, not_found, multiple_choices, Key, Texts, filter_by, one_of, first_of, or_query,
  in_project, query_by_name, query_by_short_id, visible, get, find,
}

module _ {ℓ} {A : Type ℓ} where
  module _ (test : A → Bool) where
    filter_by-step :
        (x : A) (rows : List A) {r : A}
        → (Memᴰ r (filter_by test rows) → Memᴰ r rows × (test r ≡ true))
        → Memᴰ r (filter_by test (x ∷ rows))
        → Memᴰ r (x ∷ rows) × (test r ≡ true)
    unfolding filter_by
    filter_by-step x rows {r} later m = split (Bool-cases (test x))
      where
        past : Memᴰ r (filter_by test rows) → Memᴰ r (x ∷ rows) × (test r ≡ true)
        past k = let (a, b) = later k in (Memᴰ.tail a, b)

        kept :
            test x ≡ true → Memᴰ r (x ∷ filter_by test rows) → Memᴰ r (x ∷ rows) × (test r ≡ true)
        kept e (Memᴰ.head h) = (Memᴰ.head h, rw (h, e) refl)
        kept e (Memᴰ.tail k) = past k

        split : (test x ≡ true) ⊎ (test x ≡ false) → Memᴰ r (x ∷ rows) × (test r ≡ true)
        split (inl e) = kept e (rw e at m)
        split (inr e) = past (rw e at m)

    -- What a query selects is in the table and passes the test.
    filter_by-Memᴰ :
        (rows : List A) {r : A} → Memᴰ r (filter_by test rows) → Memᴰ r rows × (test r ≡ true)
    unfolding filter_by
    filter_by-Memᴰ [] m = elim m [ ]
    filter_by-Memᴰ (x ∷ rows) m = filter_by-step x rows (filter_by-Memᴰ rows) m

  found-eq : {x r : A} → found x ≡ found r → x ≡ r
  found-eq e = cc

  not_found-found : {r : A} → ◌≡◌ {A = Found A} not_found (found r) → ⊥
  not_found-found e = cc

  or_query-found :
      (o rest : Found A) {r : A} → or_query o rest ≡ found r → (o ≡ found r) ⊎ (rest ≡ found r)
  unfolding or_query
  or_query-found (found x) rest e = inl e
  or_query-found not_found rest e = inr e
  or_query-found multiple_choices rest e = absurd (cc)

  found-head : {x r : A} {rows : List A} → found x ≡ found r → Memᴰ r (x ∷ rows)
  found-head e = Memᴰ.head (cc)

  one_of-found : (rows : List A) {r : A} → one_of rows ≡ found r → Memᴰ r rows
  unfolding one_of
  one_of-found [] e = absurd (ground (arith, e))
  one_of-found (x ∷ []) e = found-head e
  one_of-found (x ∷ y ∷ rows) e = absurd (ground (arith, e))

  module _ (key : A → Key) (texts : Texts) (caller : ℕ) (identity : ℕ) where
    -- What a request may mean by an identity.
    abbrev pub IsNamed : A → Type 0
    IsNamed r =
        ((key r).id ≡ identity)
        ⊎ ((key r).name ≡ identity)
        ⊎ (texts.is_prefix identity (key r).id ≡ true)

    abbrev pub IsFound : List A → A → Type ℓ
    IsFound rows r = Memᴰ r rows × ((key r).project ≡ caller) × IsNamed r

    query_by_name-IsFound :
        (rows : List A) {r : A}
        → query_by_name key texts caller identity rows ≡ found r
        → IsFound rows r
    unfolding query_by_name in_project
    query_by_name-IsFound rows e =
        let (m, t) = filter_by-Memᴰ _ rows (one_of-found _ e) in
        (m, ground (arith, t), inr (inl (ground (arith, t))))

    query_by_short_id-IsFound :
        (rows : List A) {r : A}
        → query_by_short_id key texts caller identity rows ≡ found r
        → IsFound rows r
    unfolding query_by_short_id in_project
    query_by_short_id-IsFound rows e =
        let (m, t) = filter_by-Memᴰ _ rows (one_of-found _ e) in
        (m, ground (arith, t), inr (inr (ground (arith, t))))

    visible-IsFound :
        (x : A) {r : A}
        → visible key texts caller (some x) ≡ found r
        → ((key r).project ≡ caller) × (found x ≡ found r)
    unfolding visible
    visible-IsFound x {r} e = split (Bool-cases ((key x).project == caller))
      where
        passed : found x ≡ found r → (key x).project ≡ caller → (key r).project ≡ caller
        passed e p = rw (← found-eq e) p

        split :
            (((key x).project == caller) ≡ true) ⊎ (((key x).project == caller) ≡ false)
            → ((key r).project ≡ caller) × (found x ≡ found r)
        split (inl p) =
            let same : found x ≡ found r = rw p at e in (passed same (ground (arith, p)), same)
        split (inr p) = absurd (not_found-found (rw p at e))

    first_of-IsFound :
        (rows : List A) {r : A}
        → visible key texts caller (first_of rows) ≡ found r
        → Memᴰ r rows × ((key r).project ≡ caller)
    unfolding first_of
    first_of-IsFound [] {r} e = absurd (not_found-found {r = r} (unfold visible in e))
    first_of-IsFound (x ∷ rows) e = let (p, same) = visible-IsFound x e in (found-head same, p)

    get-IsFound :
        (rows : List A) {r : A} → get key texts caller identity rows ≡ found r → IsFound rows r
    unfolding get
    get-IsFound rows {r} e =
        let (m, p) = first_of-IsFound _ e in
        let (n, t) = filter_by-Memᴰ _ rows m in (n, p, inl (ground (arith, t)))

    -- A row that is found is in the table, belongs to the project of the request, and has the
    -- identity for its id or its name, or else for a prefix of its id.
    pub find-IsFound :
        (rows : List A) {r : A} → find key texts caller identity rows ≡ found r → IsFound rows r
    unfolding find
    find-IsFound rows {r} e = split (Bool-cases (texts.is_uuid_like identity))
      where
        split :
            (texts.is_uuid_like identity ≡ true) ⊎ (texts.is_uuid_like identity ≡ false)
            → IsFound rows r
        split (inl p) = elim (or_query-found _ _ (rw p at e)) [
          | inl h ↦ get-IsFound rows h
          | inr h ↦ query_by_name-IsFound rows h
        ]
        split (inr p) = elim (or_query-found _ _ (rw p at e)) [
          | inl h ↦ query_by_name-IsFound rows h
          | inr h ↦ query_by_short_id-IsFound rows h
        ]
