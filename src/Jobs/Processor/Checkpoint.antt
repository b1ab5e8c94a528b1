-- ===== src/Jobs/Processor/Checkpoint.antt =====
-- The checkpoint of `_process_rest_request` of app/jobs/processor.py: what a call leaves in the queue.
use b24_sinedis.Prelude.{
  ℕ, String, ◌≡◌, refl, true, some, [], ◌∷◌, map, All, All-imp, ◌∙◌, arith, if◌then◌else◌,
  comparable_ids, Bool-cases, inl, inr,
}
use b24_sinedis.Value.{obj, bool, Fields, get, get-put}
use b24_sinedis.Settings.{Settings}
use b24_sinedis.Jobs.Model.{AutomationJob, Table}
use b24_sinedis.Jobs.Repository.{is_held, transition, update_where, save_processing_result}
use b24_sinedis.Runtime.{Result, ok, raised, Env, World, ◌>>=◌, pure, lift, transact}
use b24_sinedis.Runtime.Contracts.{
  Outcome, Meets, Anywhere, Whatever, Meets-pure, Meets-lift, Meets-any, Meets-imp, Meets-bind,
  outcome-of,
}
use b24_sinedis.Bitrix.OAuth.Portal.{call_portal}
use b24_sinedis.Bitrix.OAuth.Traffic.{call_portal-bounds}
use b24_sinedis.Jobs.Processor.Outcome.{save_result, deliver_subscription}
use b24_sinedis.Jobs.Processor.RestRequest.{
  truthy, method_of, mark_requested, checkpoint, request_and_save, request_or_deliver,
}

-- A condition on the world alone holds after either outcome.
both :
    {A : Type 0} (t : Table) (r : Result A) (w : World)
    → w.jobs ≡ t
    → Outcome (λ a v. v.jobs ≡ t) (λ e v. v.jobs ≡ t) r w
both t (ok a) w h = h
both t (raised e) w h = h

-- Every held row keeps the marked payload, from which the next run reads the return values.
Saved : AutomationJob → Fields → Fields → AutomationJob → Type 0
Saved job payload values j =
    is_held job.id j ≡ true
    → (j.payload ≡ obj (mark_requested payload))
      × (checkpoint j (mark_requested payload) ≡ some values)

marked : (payload : Fields) → truthy (get "request_completed" (mark_requested payload)) ≡ true
marked payload = rw (get-put "request_completed" "request_completed" (bool true) payload) refl

module _ (job : AutomationJob) (payload values : Fields) where
  rows-Saved :
      (stamp : ℕ) (t : Table)
      → All (Saved job payload values) (
          map
            (λ j.
              if is_held job.id j
              then record j {
                payload = obj (mark_requested payload);
                return_values = obj values;
                updated_at = stamp;
              }
              else j)
            t)
  unfolding Saved
  rows-Saved stamp [] = tt
  rows-Saved stamp (j ∷ t) = (
    elim (Bool-cases (is_held job.id j)) [
      | inl e ↦ rw (e) λ h. (refl, rw (marked payload) refl)
      | inr e ↦ rw (e) λ h. ground (arith, e, h)
    ],
    rows-Saved stamp t,
  )

module _ (env : Env) (settings : Settings) (job : AutomationJob) (payload : Fields) where
  save-Saved :
      (values : Fields)
      → Meets Anywhere
          (λ u w. All (Saved job payload values) w.jobs)
          Whatever
          (save_result env job (mark_requested payload) values)
  unfolding save_result transact save_processing_result transition update_where ◌>>=◌ pure
  save-Saved values = record { run = λ w p. rows-Saved job payload values _ w.jobs }

  request-Saved :
      Meets Anywhere
        (λ values w. All (Saved job payload values) w.jobs)
        Whatever
        (request_and_save env settings job payload)
  unfolding request_and_save
  request-Saved = Meets-bind (Meets-any _) λ a. Meets-bind (Meets-any _) λ b.
      Meets-bind (Meets-any _) λ c. Meets-bind (Meets-any _) λ d. Meets-bind (Meets-any _) λ e.
        Meets-bind (Meets-any _) λ matches.
          Meets-bind (Meets-imp (save-Saved _) (λ w p. tt) (λ w u q. q) (λ w x q. q))
            λ u. Meets-pure _ (λ w p. p)

  Untouched : Table → World → Type 0
  Untouched t w = w.jobs ≡ t

  call-Untouched :
      (t : Table) (method : String) (params : Fields)
      → Meets
          (Untouched t)
          (λ a. Untouched t)
          (λ e. Untouched t)
          (call_portal env settings job.portal_id method params)
  unfolding Untouched
  call-Untouched t method params = record {
    run = λ w p.
        both t (call_portal env settings job.portal_id method params w).0 _
          ((call_portal-bounds env settings job.portal_id method params w).1 ∙ p);
  }

  kept :
      {A : Type 0} (t : Table) (r : Result A)
      → Meets (Untouched t) (λ a. Untouched t) (λ e. Untouched t) (lift r)
  kept t r = Meets-lift r (λ a e w p. p) (λ x e w p. p)

  saves :
      (t : Table) (values : Fields)
      → Meets
          (Untouched t)
          Whatever
          (λ e. Untouched t)
          (save_result env job (mark_requested payload) values)
  unfolding save_result transact ◌>>=◌ pure
  saves t values = record { run = λ w p. tt }

  request-Untouched :
      (t : Table)
      → Meets (Untouched t) Whatever (λ e. Untouched t) (request_and_save env settings job payload)
  unfolding request_and_save
  request-Untouched t = Meets-bind (kept t _) λ a. Meets-bind (kept t _) λ b.
      Meets-bind (kept t _) λ c. Meets-bind (call-Untouched t (method_of a) c) λ d.
        Meets-bind (kept t _)
          λ e. Meets-bind (kept t _) λ matches. Meets-bind (saves t _) λ u. Meets-pure _ (λ w p. tt)

-- After a call that was answered, every row of the job that is still held carries its return values,
-- and processing it again, in whatever environment, only delivers them: the call is not repeated.
pub request_checkpointed :
    (env : Env) (settings : Settings) (job : AutomationJob) (payload : Fields) (w : World)
    {values : Fields}
    → (request_and_save env settings job payload w).0 ≡ ok values
    → All
        (λ j.
          is_held job.id j ≡ true
          → (j.payload ≡ obj (mark_requested payload))
            × ((later : Env) (token : String)
                → request_or_deliver later settings j token (mark_requested payload)
                  ≡ deliver_subscription later settings j token values))
        (request_and_save env settings job payload w).1.jobs
unfolding Saved request_or_deliver
request_checkpointed env settings job payload w {values} h =
    All-imp (Saved job payload values) _
      (λ j s held. ((s held).0, λ later token. rw (request_or_deliver, (s held).1) refl)) _
      (outcome-of (λ v w'. All (Saved job payload v) w'.jobs) Whatever _ h
        ((request-Saved env settings job payload).run w tt))
