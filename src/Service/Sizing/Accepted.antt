-- ===== src/Service/Sizing/Accepted.antt =====
-- What becomes of a resize that the service accepts: the handler of the action makes the size
-- checks again, with the number of nodes then.
use senlin.Prelude.{
  ℕ, ◌<◌, ◌≡◌, refl, sym, ◌∙◌, subst, ◌⊎◌, Bool, true, false, Option, none, some, arith,
  >>=-eq-some,
}
use senlin.Prelude.Int.{ℤ, pos, ◌≤ℤ◌, ◌<ℤ◌}
use senlin.Db.{ActionName, cluster_resize}
use senlin.Scaling.Adjust.{
  AdjustmentType, Sizes, SizeError, is_false, is_true, truncate_desired, check_size_params,
  ResizeInputs, SizeChange, res_ok, current_or, requested, resized, size_change, conclude,
  parse_resize_params,
}
use senlin.Scaling.Checks.{IfGiven, IsConsistent, check_size_params_iff}
use senlin.Scaling.Resize.{
  IsSized, IsAllowed, apply_change, is_true-some, parse_resize_params-IsAllowed,
}
use senlin.Service.Find.{found}
use senlin.Service.{ClusterRow, Store, Caller, Inputs, sizes, queued, find_cluster}
use senlin.Service.Heads.{with_cluster-found, some-eq, Allowed}
use senlin.Service.Membership.{queue_or}
use senlin.Service.Sizing.{
  ResizeRequest, strict_of, count_by_cluster, Adjustment, bad, adjust, adjustment_of, desired_of,
  resize_inputs, queue_resize, with_adjustment, resize_request,
}

-- A cluster at rest: it has as many nodes as it wants, at least one, its sizes are in order, and
-- allow that number.
pub record IsSettled (caller : Caller) (c : ClusterRow) (n : ℕ) : Type 0 where
  pub some_nodes : 0 < n
  pub as_desired : c.sizes.desired_capacity ≡ pos n
  pub allowed : Allowed caller c (pos n)
  pub sized : IsSized c.sizes

-- A new minimum is at most the configured number of nodes, and a new maximum is not zero.
pub record IsUsable (max_nodes : ℤ) (min_size max_size : Option ℤ) : Type 0 where
  pub min_fits : IfGiven min_size (λ l. l ≤ℤ max_nodes)
  pub some_room : IfGiven max_size (λ m. (m <ℤ pos 0) ⊎ (pos 0 <ℤ m))

parse-none :
    (max_nodes : ℤ) (s : Sizes) (inputs : ResizeInputs) (current : Option ℤ)
    → check_size_params max_nodes
        (some s)
        (some (resized s inputs current))
        inputs.min_size
        inputs.max_size
        (is_true inputs.strict)
      ≡ none
    → parse_resize_params max_nodes s inputs current
      ≡ res_ok (size_change (current_or current s.desired_capacity) (resized s inputs current))
unfolding parse_resize_params conclude
parse-none max_nodes s inputs current e = rw e refl

module _ (caller : Caller) (c : ClusterRow) (n : ℕ) (settled : IsSettled caller c n) where
  abbrev Passes : Option ℤ → Option ℤ → Option ℤ → Bool → Type 0
  Passes = IsConsistent caller.max_nodes c.sizes

  -- A size that passes as it is passes when it is cut to the sizes of the cluster.
  truncated-Passes :
      (d : ℤ) (min_size max_size : Option ℤ)
      → Passes (some d) min_size max_size false
      → Passes (some (truncate_desired c.sizes d min_size max_size)) min_size max_size false
  unfolding truncate_desired
  truncated-Passes d none none h = ground arith
  truncated-Passes d none (some m) h = ground arith
  truncated-Passes d (some l) none h = ground arith
  truncated-Passes d (some l) (some m) h = ground arith

  -- The number of nodes passes where the cluster as it is passes.
  unchanged-Passes :
      (min_size max_size : Option ℤ)
      → Passes none min_size max_size true
      → Passes (some (pos n)) min_size max_size true
  unchanged-Passes none none h = ground arith
  unchanged-Passes none (some m) h = ground arith
  unchanged-Passes (some l) none h = ground arith
  unchanged-Passes (some l) (some m) h = ground arith

  lenient-Passes :
      (min_size max_size : Option ℤ)
      → IsUsable caller.max_nodes min_size max_size
      → Passes none min_size max_size false
      → Passes (some (truncate_desired c.sizes (pos n) min_size max_size)) min_size max_size false
  unfolding truncate_desired
  lenient-Passes none none b h = ground arith
  lenient-Passes none (some m) b h = ground arith
  lenient-Passes (some l) none b h = ground arith
  lenient-Passes (some l) (some m) b h = ground arith

  counted : current_or (some (pos n)) c.sizes.desired_capacity ≡ pos n
  unfolding current_or
  counted = ground (arith, settled.some_nodes)

  passes :
      (strict : Bool) (adjustment : Option (AdjustmentType × ℤ))
      (min_step min_size max_size : Option ℤ)
      → IsUsable caller.max_nodes min_size max_size
      → Passes (desired_of (pos n) adjustment min_step) min_size max_size strict
      → Passes
          (some (
            resized c.sizes
              (record {
                adjustment = adjustment;
                min_size = min_size;
                max_size = max_size;
                min_step = min_step;
                strict = some strict;
              })
              (some (pos n))))
          min_size
          max_size
          strict
  unfolding resized requested desired_of is_false
  passes true none min_step min_size max_size b h =
      rw counted (unchanged-Passes min_size max_size h)
  passes true (some (t, d)) min_step min_size max_size b h = rw counted h
  passes false none min_step min_size max_size b h =
      rw counted (lenient-Passes min_size max_size b h)
  passes false (some (t, d)) min_step min_size max_size b h =
      rw counted (truncated-Passes _ min_size max_size h)

  -- The handler does not refuse inputs that passed the checks of the service.
  checked-parsed :
      (inputs : ResizeInputs) (b : Bool)
      → inputs.strict ≡ some b
      → IsUsable caller.max_nodes inputs.min_size inputs.max_size
      → check_size_params caller.max_nodes
          (some c.sizes)
          (desired_of (pos n) inputs.adjustment inputs.min_step)
          inputs.min_size
          inputs.max_size
          (is_true inputs.strict)
        ≡ none
      → (change : SizeChange) × (parse_resize_params caller.max_nodes c.sizes inputs (some (pos n))
          ≡ res_ok change)
        × IsAllowed caller.max_nodes c.sizes inputs (apply_change (pos n) change)
  checked-parsed inputs b given usable fine =
      let check = λ (desired : Option ℤ).
        check_size_params_iff caller.max_nodes c.sizes desired inputs.min_size inputs.max_size
          (is_true inputs.strict) in
      let passed =
        passes b inputs.adjustment inputs.min_step inputs.min_size inputs.max_size usable (
          subst (Passes _ inputs.min_size inputs.max_size) (is_true-some given)
            ((check _).0 fine)) in
      let same_inputs =
        subst
          (λ (s : Option Bool).
            Passes (some (resized c.sizes (record inputs { strict = s }) (some (pos n))))
              inputs.min_size inputs.max_size b)
          (sym given) passed in
      let again =
        (check _).1 (
          subst (Passes _ inputs.min_size inputs.max_size) (sym (is_true-some given))
            same_inputs) in
      let change =
        size_change (current_or (some (pos n)) c.sizes.desired_capacity)
          (resized c.sizes inputs (some (pos n))) in
      let parsed : parse_resize_params caller.max_nodes c.sizes inputs (some (pos n))
          ≡ res_ok change =
        parse-none caller.max_nodes c.sizes inputs (some (pos n)) again in
      (
        change,
        parsed,
        subst (λ m. IsAllowed caller.max_nodes c.sizes inputs (apply_change m change)) counted
            (parse_resize_params-IsAllowed caller.max_nodes c.sizes settled.sized inputs
              (some (pos n)) change b given parsed).0,
      )

pub queue_or-queued :
    (o : Option SizeError) {name : ActionName} {id : ℕ} {i j : Inputs}
    → queue_or o (queued name id i) ≡ queued name id j
    → (o ≡ none) × (i ≡ j)
unfolding queue_or
queue_or-queued none e = (refl, cc)
queue_or-queued (some message) e = absurd (cc)

sizes-eq : {a b : ResizeInputs} → sizes a ≡ sizes b → a ≡ b
sizes-eq e = cc

strict_of-some :
    (o : Option (Option Bool)) → ¬ (o ≡ some none) → (b : Bool) × (strict_of o ≡ some b)
unfolding strict_of
strict_of-some none h = (true, refl)
strict_of-some (some none) h = absurd (h refl)
strict_of-some (some (some b)) h = (b, refl)

-- A resize that the service accepts, with the inputs that its action gets, and whose `strict` is not
-- null, is for a cluster at rest not refused by the handler if nothing changes in between: the size that the handler computes
-- passes its checks, and is within the configured number of nodes and the sizes that the request
-- puts in force. A new minimum is at most the configured number, and a new maximum is not zero.
pub resize_request-parsed :
    (caller : Caller) (store : Store) (identity : ℕ) (req : ResizeRequest) (c : ClusterRow)
    (inputs : ResizeInputs)
    → find_cluster caller store identity ≡ found c
    → IsSettled caller c (count_by_cluster caller store c.key.id)
    → IsUsable caller.max_nodes req.min_size req.max_size
    → ¬ (req.strict ≡ some none)
    → resize_request caller store identity req
      ≡ some (queued cluster_resize c.key.id (sizes inputs))
    → (change : SizeChange) × (parse_resize_params caller.max_nodes c.sizes inputs
          (some (pos (count_by_cluster caller store c.key.id)))
        ≡ res_ok change)
      × IsAllowed caller.max_nodes c.sizes inputs
          (apply_change (pos (count_by_cluster caller store c.key.id)) change)
unfolding resize_request
resize_request-parsed caller store identity req c inputs there settled usable not_null e =
    let (a, known, h) = >>=-eq-some (adjustment_of req) _ e in with_adjustment-parsed a h
  where
    n : ℕ
    n = count_by_cluster caller store c.key.id

    with_adjustment-parsed :
        (a : Adjustment)
        → with_adjustment caller store identity req a
          ≡ some (queued cluster_resize c.key.id (sizes inputs))
        → (change : SizeChange) × (parse_resize_params caller.max_nodes c.sizes inputs
              (some (pos n))
            ≡ res_ok change)
          × IsAllowed caller.max_nodes c.sizes inputs (apply_change (pos n) change)
    with_adjustment-parsed (bad message) h = absurd (unfold with_adjustment in cc)
    with_adjustment-parsed (adjust adjustment min_step) h =
        let given = resize_inputs req adjustment min_step in
        let start : with_adjustment caller store identity req (adjust adjustment min_step)
            ≡ some (queue_resize caller c n given) =
          unfold with_adjustment in with_cluster-found caller store identity _ there in
        let (fine, same) = queue_or-queued _ (unfold queue_resize in some-eq (sym start ∙ h)) in
        subst
          (λ i.
            (change : SizeChange) × (parse_resize_params caller.max_nodes c.sizes i (some (pos n))
              ≡ res_ok change)
            × IsAllowed caller.max_nodes c.sizes i (apply_change (pos n) change))
          (sizes-eq same)
          (checked-parsed caller c n settled given _
            (unfold resize_inputs in (strict_of-some req.strict not_null).1)
            (unfold resize_inputs in usable) fine)
