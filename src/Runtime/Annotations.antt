-- ===== src/Runtime/Annotations.antt =====
-- `Reconcile` of pkg/spruntime/spreconciler.go: the annotation by which a run is skipped or triggered
-- by hand.
use service_provider_kro.Base.{
  String, ◌==◌, eq_iff, Bool, true, false, Option, none, some, ◌∷◌, inl, inr, ◌≡◌, ◌≢◌, refl, sym,
  ap, ◌∙◌, Bool-cases, if◌then◌else◌,
}
use service_provider_kro.Base.Lists.{StringMap, lookup, lookup_or_empty, lookup-erase}
use service_provider_kro.Go.{api}
use service_provider_kro.Kube.{Answer, ok, err, no_requeue}
use service_provider_kro.Api.ProviderConfig.{ProviderConfig}
use service_provider_kro.Api.Kro.{Kro}
use service_provider_kro.Env.{Env, Log, patched_kro}
use service_provider_kro.Runtime.Context.{ServiceProvider}
use service_provider_kro.Runtime.Reconcile.{
  Reconciled, finished, operation, consumed, reconcile_patched, reconcile_got, reconcile_deferred,
}

or_empty_eq :
    (k : String) (m : StringMap) (o : Option String)
    → lookup k m ≡ o
    → lookup_or_empty k m ≡ elim o [ none ↦ "" | some v ↦ v ]
unfolding lookup_or_empty
or_empty_eq k m o e = ap (λ x. elim x [ none ↦ "" | some v ↦ v ]) e

has_value :
    (k v : String) (m : StringMap)
    → v ≢ ""
    → (lookup_or_empty k m == v) ≡ true
    → lookup k m ≡ some v
has_value k v m given same = by_entry (lookup k m) refl
  where
    read : lookup_or_empty k m ≡ v
    read = (eq_iff _ v).0 same

    by_entry : (o : Option String) → lookup k m ≡ o → lookup k m ≡ some v
    by_entry none e = absurd (given (sym read ∙ or_empty_eq k m none e))
    by_entry (some w) e = e ∙ ap some (sym (or_empty_eq k m (some w) e) ∙ read)

has_other_value :
    (k v : String) (m : StringMap) → (lookup_or_empty k m == v) ≡ false → lookup k m ≢ some v
has_other_value k v m differs e = cc ((eq_iff _ v).1 (or_empty_eq k m (some v) e))

module _ (env : Env) (w : Bool) (provider : ServiceProvider) (cached : Option ProviderConfig)
    (log : Log) where
  -- `patched` is `obj` without its operation annotation, as far as `key` shows; all else is kept.
  pub record Stripped (key : String) (obj patched : Kro) : Type 0 where
    pub annotation :
        lookup key patched.annotations
        ≡ (if env.operation_annotation == key then none else lookup key obj.annotations)
    pub rest : record patched { annotations = obj.annotations } ≡ obj

  -- What is returned behind the patch, by its answer.
  abbrev pub Patched : Answer Kro → Log → Reconciled × Log → Type 0
  Patched (ok answered) log' result =
      result ≡ reconcile_deferred env w provider cached answered log'
  Patched (err e) log' result = result ≡ (finished no_requeue (some (api e)), log')

  -- The object is to be ignored, or it is to be reconciled by hand, or neither.
  pub data Handled (key : String) (obj : Kro) (result : Reconciled × Log) : Type 0 where
    skipped :
        lookup env.operation_annotation obj.annotations ≡ some env.operation_ignore
        → result ≡ (finished no_requeue none, log)
        → Handled key obj result
    triggered :
        lookup env.operation_annotation obj.annotations ≡ some env.operation_reconcile
        → (patched : Kro) → Stripped key obj patched
        → Patched
            (env.patch_kro log patched obj)
            (patched_kro patched obj (env.patch_kro log patched obj) ∷ log)
            result
        → Handled key obj result
    plain :
        lookup env.operation_annotation obj.annotations ≢ some env.operation_ignore
        → lookup env.operation_annotation obj.annotations ≢ some env.operation_reconcile
        → result ≡ reconcile_deferred env w provider cached obj log
        → Handled key obj result

  patched_lem :
      (answer : Answer Kro) (log' : Log)
      → Patched answer log' (reconcile_patched env w provider cached answer log')
  patched_lem (ok answered) log' = refl
  patched_lem (err e) log' = refl

  unless_ignored_lem :
      (key : String) (obj : Kro)
      → env.operation_reconcile ≢ ""
      → lookup env.operation_annotation obj.annotations ≢ some env.operation_ignore
      → Handled key obj (
          if operation env w provider obj == env.operation_reconcile
          then (let answer = env.patch_kro log (consumed env w provider obj) obj in
              reconcile_patched env w provider cached answer
                (patched_kro (consumed env w provider obj) obj answer ∷ log))
          else reconcile_deferred env w provider cached obj log)
  unless_ignored_lem key obj given seen =
      elim (Bool-cases (operation env w provider obj == env.operation_reconcile)) [
        | inl by_hand ↦ rw by_hand (
            triggered (has_value env.operation_annotation _ obj.annotations given by_hand)
              (consumed env w provider obj)
              (record {
                annotation = lookup-erase env.operation_annotation key obj.annotations;
                rest = refl;
              })
              (patched_lem _ _))
        | inr not_by_hand ↦ rw not_by_hand (
            plain seen (has_other_value env.operation_annotation _ obj.annotations not_by_hand)
              refl)
      ]

  -- A run on an object whose operation annotation is the one to ignore it returns at once, with
  -- nothing done. If the annotation is the one to reconcile it by hand, the object is patched to
  -- one without this annotation and with all else kept. A failed patch is returned as the error,
  -- and else the run goes on with what the patch answers. In any other case the run goes on with
  -- the object as it is. The two values of the annotation must not be empty.
  pub reconcile_got_lem :
      (key : String) (obj : Kro)
      → env.operation_ignore ≢ ""
      → env.operation_reconcile ≢ ""
      → Handled key obj (reconcile_got env w provider cached (ok obj) log)
  unfolding reconcile_got
  reconcile_got_lem key obj ignore_given reconcile_given =
      elim (Bool-cases (operation env w provider obj == env.operation_ignore)) [
        | inl ignored ↦ rw ignored (
            skipped (has_value env.operation_annotation _ obj.annotations ignore_given ignored)
              refl)
        | inr seen ↦ rw seen (
            unless_ignored_lem key obj reconcile_given
              (has_other_value env.operation_annotation _ obj.annotations seen))
      ]
