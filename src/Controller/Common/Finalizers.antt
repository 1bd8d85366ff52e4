-- ===== src/Controller/Common/Finalizers.antt =====
-- ensureFinalizer and removeFinalizer of internal/controller/common.go. The patch of the object's
-- metadata is the caller's.
use aws_workload_identity_op.Prelude.{String, Bool, true, false, not, if◌then◌else◌, [], ◌∷◌, cat}
use aws_workload_identity_op.Api.Types.{ObjectMeta, object_key, name_text}
use aws_workload_identity_op.Api.Semantic.{FinalizerLists}
use aws_workload_identity_op.Api.Errors.{Result, ok, wrap_result, ◌>>=◌}

module _ (u : FinalizerLists) {S : Type 0} (patch : ObjectMeta → S → Result (Unit {0}) × S) where
  added : Result (Unit {0}) × S → String → Result Bool × S
  added (answer, s) prefix = (wrap_result prefix answer >>= λ _. ok true, s)

  -- ensureFinalizer: true if it added the finalizer.
  unfoldable pub ensure_finalizer : ObjectMeta → String → S → Result Bool × S
  unfolding added
  ensure_finalizer m finalizer s =
      if m.deleting
      then (ok false, s)
      else if u.contains m.finalizers finalizer
      then (ok false, s)
      else added (patch (record m { finalizers = u.add m.finalizers finalizer }) s)
          (cat ("add finalizer on " ∷ name_text (object_key m) ∷ []))

  unfoldable pub removed : Result (Unit {0}) × S → String → Result (Unit {0}) × S
  removed (answer, s) prefix = (wrap_result prefix answer, s)

  -- removeFinalizer
  unfoldable pub remove_finalizer : ObjectMeta → String → S → Result (Unit {0}) × S
  unfolding removed
  remove_finalizer m finalizer s =
      if not (u.contains m.finalizers finalizer)
      then (ok tt, s)
      else removed (patch (record m { finalizers = u.remove m.finalizers finalizer }) s)
          (cat ("remove finalizer on " ∷ name_text (object_key m) ∷ []))
