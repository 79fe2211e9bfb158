-- ===== src/Service/Membership/Adding.antt =====
-- Which requests to add nodes to a cluster are accepted.
use senlin.Prelude.{
  ℕ, ◌≡◌, refl, sym, ap, ◌∙◌, subst, ◌↔◌, Bool, true, false, not, Option, none, some, List, [], ◌∷◌,
  length, ◌==◌, ◌>>=◌, >>=-eq-some, arith, ==_refl,
}
use senlin.Prelude.Int.{ℤ, pos, ◌+ℤ◌}
use senlin.Db.{cluster_add_nodes}
use senlin.Node.{active}
use senlin.Scaling.Adjust.{SizeError}
use senlin.Service.Find.{Found, found, not_found, multiple_choices}
use senlin.Service.{
  ClusterRow, NodeRow, Store, Caller, Complaint, nodes, queued, find_cluster, find_node,
  profile_type_of,
}
use senlin.Service.Heads.{with_cluster-found, some-eq, Allowed, check_target_iff}
use senlin.Service.Membership.{
  is_node_active, is_owned, add_if, NewNodes, file_new, file_missing, sort_round, sort_new,
  complain, complaints_on, queue_or, raise_or, check_target, add_sorted, add_nodes_request,
}

-- Nothing to complain about.
abbrev IsClean : NewNodes → Type 0
IsClean s = (s.unlike ≡ []) × (s.taken_ids ≡ []) × (s.inactive ≡ []) × (s.missing ≡ [])

add_if-nil : (test : Bool) (i : ℕ) (l : List ℕ) → add_if test i l ≡ [] → (test ≡ false) × (l ≡ [])
add_if-nil true i l e = absurd (cc)
add_if-nil false i l e = (refl, e)

complaints_on-IsClean : (s : NewNodes) → complaints_on s ≡ [] → IsClean s
unfolding complaints_on complain
complaints_on-IsClean s e = ground (arith, e)

-- A node that the cluster may take in.
pub record Fits (caller : Caller) (store : Store) (cluster_type : ℕ) (n : NodeRow) : Type 0 where
  pub in_service : n.status ≡ active
  pub unclaimed : n.cluster_id ≡ none
  pub same_type : profile_type_of caller store n.profile_id ≡ some cluster_type

-- Each identity names a node that fits; the ids of these nodes.
pub data AllFit (caller : Caller) (store : Store) (cluster_type : ℕ)
    : List ℕ → List ℕ → Type 0 where
  none_left : AllFit caller store cluster_type [] []
  one_more :
      {i : ℕ} (n : NodeRow) {is ids : List ℕ}
      → find_node caller store i ≡ found n
      → Fits caller store cluster_type n
      → AllFit caller store cluster_type is ids
      → AllFit caller store cluster_type (i ∷ is) (n.key.id ∷ ids)

module _ (caller : Caller) (store : Store) (t : ℕ) where
  file_new-IsClean :
      (n : NodeRow) (node_type : ℕ) (rest : NewNodes)
      → profile_type_of caller store n.profile_id ≡ some node_type
      → IsClean (file_new t n node_type rest)
      → Fits caller store t n × IsClean rest
  unfolding file_new
  file_new-IsClean n node_type rest e (a, b, c, d) =
      let (p, a') = add_if-nil (not (node_type == t)) n.key.id rest.unlike a in
      let (q, b') = add_if-nil (is_owned n) n.key.id rest.taken_ids b in
      let (r, c') = add_if-nil (not (is_node_active n)) n.key.id rest.inactive c in
      let same : node_type ≡ t = ground (arith, p) in
      (
        record {
          in_service = unfold is_node_active in ground (arith, r);
          unclaimed = unfold is_owned in ground (arith, q);
          same_type = rw e (ap some same);
        },
        (a', b', c', d),
      )

  missing-IsClean : (i : ℕ) (rest s : NewNodes) → file_missing i rest ≡ s → IsClean s → ⊥
  unfolding file_missing
  missing-IsClean i rest s e (a, b, c, d) =
      let gone : i ∷ rest.missing ≡ [] = ap (λ (r : NewNodes). r.missing) e ∙ d in cc

  sort_round-AllFit :
      (i : ℕ) (is : List ℕ) (o : Found NodeRow) (rest : NewNodes) {s : NewNodes}
      → find_node caller store i ≡ o
      → sort_round caller store t i o rest ≡ some s
      → IsClean s
      → (IsClean rest → AllFit caller store t is rest.found_ids)
      → AllFit caller store t (i ∷ is) s.found_ids
  unfolding sort_round file_new
  sort_round-AllFit i is (found n) rest {s} at e clean later =
      let (node_type, known, h) = >>=-eq-some (profile_type_of caller store n.profile_id) _ e in
      let same : file_new t n node_type rest ≡ s = some-eq h in
      let (fits, clean') =
        file_new-IsClean n node_type rest known (subst (λ r. IsClean r) (sym same) clean) in
      subst (λ r. AllFit caller store t (i ∷ is) r.found_ids) same
        (one_more n at fits (later clean'))
  sort_round-AllFit i is not_found rest {s} at e clean later =
      absurd (missing-IsClean i rest s (some-eq e) clean)
  sort_round-AllFit i is multiple_choices rest {s} at e clean later =
      absurd (missing-IsClean i rest s (some-eq e) clean)

  sort_new-AllFit :
      (is : List ℕ) {s : NewNodes}
      → sort_new caller store t is ≡ some s
      → IsClean s
      → AllFit caller store t is s.found_ids
  unfolding sort_new
  sort_new-AllFit [] {s} e clean =
      subst (λ r. AllFit caller store t [] r.found_ids) (some-eq e) none_left
  sort_new-AllFit (i ∷ is) {s} e clean =
      let (rest, before, h) = >>=-eq-some (sort_new caller store t is) _ e in
      sort_round-AllFit i is (find_node caller store i) rest refl h clean
        (sort_new-AllFit is before)

  -- What the loop gathers from nodes that fit.
  abbrev only : List ℕ → NewNodes
  only ids = record { found_ids = ids; missing = []; inactive = []; taken_ids = []; unlike = [] }

  Fits-file_new :
      (n : NodeRow) (ids : List ℕ)
      → Fits caller store t n
      → file_new t n t (only ids) ≡ only (n.key.id ∷ ids)
  unfolding file_new is_node_active is_owned
  Fits-file_new n ids fits = rw (fits.in_service, fits.unclaimed, ==_refl t) refl

  AllFit-sort_new :
      {is ids : List ℕ}
      → AllFit caller store t is ids
      → sort_new caller store t is ≡ some (only ids)
  unfolding sort_new sort_round
  AllFit-sort_new none_left = refl
  AllFit-sort_new (one_more n at fits rest) =
      rw (AllFit-sort_new rest, at, fits.same_type) (ap some (Fits-file_new n _ fits))

nodes-eq : {a b : List ℕ} → nodes a ≡ nodes b → a ≡ b
nodes-eq e = cc

module _ (caller : Caller) (c : ClusterRow) where
  -- The size that the addition of so many nodes leads to.
  abbrev pub enlarged : List ℕ → ℤ
  enlarged ids = c.sizes.desired_capacity +ℤ pos (length ids)

  raise_or-queued :
      (m : List Complaint) (o : Option SizeError) {s ids : List ℕ}
      → raise_or m (queue_or o (queued cluster_add_nodes c.key.id (nodes s)))
        ≡ queued cluster_add_nodes c.key.id (nodes ids)
      → (m ≡ []) × (o ≡ none) × (s ≡ ids)
  unfolding raise_or queue_or
  raise_or-queued [] none e = (refl, refl, cc)
  raise_or-queued [] (some message) e = absurd (cc)
  raise_or-queued (l ∷ m) o e = absurd (cc)

  add_sorted-queued :
      (s : NewNodes) (ids : List ℕ)
      → add_sorted caller c s ≡ queued cluster_add_nodes c.key.id (nodes ids)
      → IsClean s × (s.found_ids ≡ ids) × Allowed caller c (enlarged ids)
  unfolding add_sorted
  add_sorted-queued s ids e =
      let (none_said, fine, same) = raise_or-queued (complaints_on s) _ e in
      (
        complaints_on-IsClean s none_said,
        same,
        (check_target_iff caller c (enlarged ids)).0
            (subst (λ l. check_target caller c (enlarged l) ≡ none) same fine),
      )

  only-add_sorted :
      (store : Store) (t : ℕ) (ids : List ℕ)
      → Allowed caller c (enlarged ids)
      → add_sorted caller c (only caller store t ids)
        ≡ queued cluster_add_nodes c.key.id (nodes ids)
  unfolding add_sorted complaints_on complain raise_or queue_or
  only-add_sorted store t ids allowed =
      rw ((check_target_iff caller c (enlarged ids)).1 allowed) refl

module _ (caller : Caller) (store : Store) (identity : ℕ) (requested : List ℕ) (c : ClusterRow)
    (t : ℕ) (there : find_cluster caller store identity ≡ found c)
    (known : profile_type_of caller store c.profile_id ≡ some t) where
  steps :
      (o : Option NewNodes)
      → sort_new caller store t requested ≡ o
      → add_nodes_request caller store identity requested
        ≡ (o >>= (λ s. some (add_sorted caller c s)))
  unfolding add_nodes_request
  steps o e = with_cluster-found caller store identity _ there ∙ rw (known, e) refl

  -- A request to add nodes to a cluster whose profile is there is accepted, with an action for the
  -- ids given, exactly when each identity names one node, which is active, belongs to no cluster
  -- and has the profile type of the cluster, these are their ids in the order of the request, and
  -- the desired capacity plus their number is within the configured and the cluster's own bounds.
  pub add_nodes_request_iff :
      (ids : List ℕ)
      → (add_nodes_request caller store identity requested
          ≡ some (queued cluster_add_nodes c.key.id (nodes ids)))
        ↔ (AllFit caller store t requested ids × Allowed caller c (enlarged caller c ids))
  add_nodes_request_iff ids = (to, from)
    where
      to :
          add_nodes_request caller store identity requested
            ≡ some (queued cluster_add_nodes c.key.id (nodes ids))
          → AllFit caller store t requested ids × Allowed caller c (enlarged caller c ids)
      to e =
          let (s, sorted, h) =
            >>=-eq-some (sort_new caller store t requested) _ (sym (steps _ refl) ∙ e) in
          let (clean, same, allowed) = add_sorted-queued caller c s ids (some-eq h) in
          (
            subst (λ l. AllFit caller store t requested l) same
                (sort_new-AllFit caller store t requested sorted clean),
            allowed,
          )

      from :
          AllFit caller store t requested ids × Allowed caller c (enlarged caller c ids)
          → add_nodes_request caller store identity requested
            ≡ some (queued cluster_add_nodes c.key.id (nodes ids))
      from (fit, allowed) =
          steps _ (AllFit-sort_new caller store t fit)
          ∙ ap some (only-add_sorted caller c store t ids allowed)
