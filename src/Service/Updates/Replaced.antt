-- ===== src/Service/Updates/Replaced.antt =====
-- What a request to replace nodes, that is accepted, asks the action for.
use senlin.Prelude.{
  ℕ, ◌≡◌, refl, sym, ap, ◌∙◌, subst, Bool, true, false, not, some, List, [], ◌∷◌, ◌++◌, ◌==◌,
  if◌then◌else◌, All, >>=-eq-some, arith,
}
use senlin.Db.{cluster_replace_nodes}
use senlin.Table.{insert}
use senlin.Service.Find.{Found, found, not_found, multiple_choices}
use senlin.Service.{
  ClusterRow, NodeRow, Store, Caller, Complaint, replacements, queued, find_cluster, find_node,
  profile_type_of,
}
use senlin.Service.Heads.{with_cluster-found, some-eq}
use senlin.Service.Membership.{is_node_active, is_owned, complain, raise_or}
use senlin.Service.Membership.Adding.{Fits}
use senlin.Service.Removal.{is_stranger}
use senlin.Service.Updates.{
  Pairs, append_if, file_pair, lose_old, lose_new, pair_round, sort_pairs, complaints_on_pairs,
  no_pairs, queue_pairs, replace_nodes_request,
}

-- Nothing to complain about.
abbrev IsClean : Pairs → Type 0
IsClean s =
    (s.outsiders ≡ [])
    × (s.taken ≡ [])
    × (s.unready ≡ [])
    × (s.unlike ≡ [])
    × (s.no_old ≡ [])
    × (s.no_new ≡ [])

complaints_on_pairs-IsClean : (s : Pairs) → complaints_on_pairs s ≡ [] → IsClean s
unfolding complaints_on_pairs complain
complaints_on_pairs-IsClean s e = ground (arith, e)

-- The ids of a member of the cluster, and of a node that fits in its place.
pub record IsSound (caller : Caller) (store : Store) (cluster_id cluster_type : ℕ) (p : ℕ × ℕ)
    : Type 0 where
  pub old : NodeRow
  pub new : NodeRow
  pub belongs : old.cluster_id ≡ some cluster_id
  pub fits : Fits caller store cluster_type new
  pub ids : (old.key.id, new.key.id) ≡ p

append-nil : (l : List ℕ) (i : ℕ) → l ++ (i ∷ []) ≡ [] → ⊥
append-nil [] i e = cc
append-nil (x ∷ l) i e = cc

append_if-nil :
    (test : Bool) (i : ℕ) (l : List ℕ) → append_if test i l ≡ [] → (test ≡ false) × (l ≡ [])
append_if-nil true i l e = absurd (append-nil l i e)
append_if-nil false i l e = (refl, e)

All-if :
    (P : ℕ × ℕ → Type 0) (b : Bool) (l m : List (ℕ × ℕ))
    → All P l
    → All P m
    → All P (if b then l else m)
All-if P true l m h k = h
All-if P false l m h k = k

insert-All :
    (P : ℕ × ℕ → Type 0) (k v : ℕ) (l : List (ℕ × ℕ)) → P (k, v) → All P l → All P (insert k v l)
unfolding insert
insert-All P k v [] p h = (p, h)
insert-All P k v ((j, w) ∷ l) p (h, hs) = All-if P (j == k) _ _ (p, hs) (h, insert-All P k v l p hs)

module _ (caller : Caller) (store : Store) (cluster_id t : ℕ) where
  -- The pairs so far are sound, and nothing is complained about.
  abbrev AllSound : Pairs → Type 0
  AllSound s = All (IsSound caller store cluster_id t) s.pairs

  file_pair-AllSound :
      (i j : ℕ) (old new : NodeRow) (node_type : ℕ) (s : Pairs)
      → profile_type_of caller store new.profile_id ≡ some node_type
      → IsClean (file_pair cluster_id t i j old new node_type s)
      → IsClean s × (AllSound s → AllSound (file_pair cluster_id t i j old new node_type s))
  unfolding file_pair
  file_pair-AllSound i j old new node_type s known (a, b, c, d, e, f) =
      let (p, a') = append_if-nil (is_stranger cluster_id old) i s.outsiders a in
      let (q, b') = append_if-nil (is_owned new) j s.taken b in
      let (r, c') = append_if-nil (not (is_node_active new)) j s.unready c in
      let (x, d') = append_if-nil (not (node_type == t)) j s.unlike d in
      let same : node_type ≡ t = ground (arith, x) in
      let sound : IsSound caller store cluster_id t (old.key.id, new.key.id) = record {
        old = old;
        new = new;
        belongs = unfold is_stranger in ground (arith, p);
        fits = record {
          in_service = unfold is_node_active in ground (arith, r);
          unclaimed = unfold is_owned in ground (arith, q);
          same_type = known ∙ ap some same;
        };
        ids = refl;
      } in
      (
        (a', b', c', d', e, f),
        λ (h : AllSound s).
            insert-All (IsSound caller store cluster_id t) old.key.id new.key.id s.pairs sound h,
      )

  lose_old-IsClean : (i : ℕ) (s s' : Pairs) → lose_old i s ≡ s' → IsClean s' → ⊥
  unfolding lose_old
  lose_old-IsClean i s s' e (a, b, c, d, gone, f) =
      append-nil s.no_old i (ap (λ (r : Pairs). r.no_old) e ∙ gone)

  lose_new-IsClean : (i : ℕ) (s s' : Pairs) → lose_new i s ≡ s' → IsClean s' → ⊥
  unfolding lose_new
  lose_new-IsClean i s s' e (a, b, c, d, f, gone) =
      append-nil s.no_new i (ap (λ (r : Pairs). r.no_new) e ∙ gone)

  pair_round-AllSound :
      (i j : ℕ) (o p : Found NodeRow) (s s' : Pairs)
      → pair_round caller store cluster_id t i j o p s ≡ some s'
      → IsClean s'
      → IsClean s × (AllSound s → AllSound s')
  unfolding pair_round
  pair_round-AllSound i j (found old) (found new) s s' e clean =
      let (node_type, known, h) = >>=-eq-some (profile_type_of caller store new.profile_id) _ e in
      let same : file_pair cluster_id t i j old new node_type s ≡ s' = some-eq h in
      let (before, step) =
        file_pair-AllSound i j old new node_type s known (subst IsClean (sym same) clean) in
      (before, λ (k : AllSound s). subst AllSound same (step k))
  pair_round-AllSound i j (found old) not_found s s' e clean =
      absurd (lose_new-IsClean j s s' (some-eq e) clean)
  pair_round-AllSound i j (found old) multiple_choices s s' e clean =
      absurd (lose_new-IsClean j s s' (some-eq e) clean)
  pair_round-AllSound i j not_found new s s' e clean =
      absurd (lose_old-IsClean i s s' (some-eq e) clean)
  pair_round-AllSound i j multiple_choices new s s' e clean =
      absurd (lose_old-IsClean i s s' (some-eq e) clean)

  sort_pairs-AllSound :
      (l : List (ℕ × ℕ)) (s s' : Pairs)
      → sort_pairs caller store cluster_id t l s ≡ some s'
      → IsClean s'
      → IsClean s × (AllSound s → AllSound s')
  unfolding sort_pairs
  sort_pairs-AllSound [] s s' e clean =
      (subst IsClean (sym (some-eq e)) clean, λ (h : AllSound s). subst AllSound (some-eq e) h)
  sort_pairs-AllSound ((i, j) ∷ l) s s' e clean =
      let (mid, first, rest) =
        >>=-eq-some
          (pair_round caller store cluster_id t i j (find_node caller store i)
            (find_node caller store j) s)
          _ e in
      let (clean', later) = sort_pairs-AllSound l mid s' rest clean in
      let (before, step) = pair_round-AllSound i j _ _ s mid first clean' in
      (before, λ (h : AllSound s). later (step h))

raise_or-replacements :
    (m : List Complaint) (id : ℕ) (l k : List (ℕ × ℕ))
    → raise_or m (queued cluster_replace_nodes id (replacements l))
      ≡ queued cluster_replace_nodes id (replacements k)
    → (m ≡ []) × (l ≡ k)
unfolding raise_or
raise_or-replacements [] id l k e = (refl, cc)
raise_or-replacements (x ∷ m) id l k e = absurd (cc)

-- Where a request to replace nodes is accepted, each pair that its action gets is a member of the
-- cluster, and a node in its place that is active, belongs to no cluster and has the profile type
-- of the cluster.
pub replace_nodes_request-IsSound :
    (caller : Caller) (store : Store) (identity : ℕ) (requested : List (ℕ × ℕ)) (c : ClusterRow)
    (t : ℕ) (pairs : List (ℕ × ℕ))
    → find_cluster caller store identity ≡ found c
    → profile_type_of caller store c.profile_id ≡ some t
    → replace_nodes_request caller store identity requested
      ≡ some (queued cluster_replace_nodes c.key.id (replacements pairs))
    → All (IsSound caller store c.key.id t) pairs
unfolding replace_nodes_request queue_pairs
replace_nodes_request-IsSound caller store identity requested c t pairs there known e =
    let start = with_cluster-found caller store identity _ there in
    let (t', type_known, h) =
      >>=-eq-some (profile_type_of caller store c.profile_id) _ (sym start ∙ e) in
    let same : t' ≡ t = some-eq (sym type_known ∙ known) in
    let (s, sorted, k) = >>=-eq-some (sort_pairs caller store c.key.id t' requested no_pairs) _ h in
    let (none_said, all) = raise_or-replacements _ c.key.id s.pairs pairs (some-eq k) in
    let (_, sound) =
      sort_pairs-AllSound caller store c.key.id t' requested no_pairs s sorted
        (complaints_on_pairs-IsClean s none_said) in
    subst (λ l. All (IsSound caller store c.key.id t) l) all
      (subst (λ u. All (IsSound caller store c.key.id u) s.pairs) same (sound (ground arith)))
