-- ===== src/Installation/Steady.antt =====
-- What leaves the tables as they are: the calls of a portal, and the whole registration.
use b24_sinedis.Prelude.{String, ◌≡◌, List, [], ◌∷◌}
use b24_sinedis.Value.{Fields, has}
use b24_sinedis.Settings.{Settings}
use b24_sinedis.Runtime.{
  Result, Env, World, HttpRequest, Action, pure, raise, lift, post, read_clock,
}
use b24_sinedis.Runtime.Contracts.{Meets, Meets-pure, Meets-raise, Meets-lift, Meets-if, Meets-bind}
use b24_sinedis.Bitrix.Exceptions.{Failure}
use b24_sinedis.Bitrix.Client.Call.{BitrixClient, call}
use b24_sinedis.Bitrix.Registration.{RobotDefinition, member_of}
use b24_sinedis.Bitrix.Registration.Service.{
  ensure_workflow_field_type, register_one, register_each, ensure_robots_registered,
  ensure_uninstall_event_registered, delete_each, ensure_activities_registered,
  field_type_registered, ensure_all,
}

module _ (start : World) where
  -- The tables are those of the start.
  pub record IsSteady (w : World) : Type 0 where
    pub same_portals : w.portals ≡ start.portals
    pub same_jobs : w.jobs ≡ start.jobs

  abbrev pub Steady : {A : Type 0} → Action A → Type 0
  Steady m = Meets IsSteady (λ a. IsSteady) (λ e. IsSteady) m

  module _ {A : Type 0} where
    pub Steady-pure : (a : A) → Steady (pure a)
    Steady-pure a = Meets-pure a (λ w h. h)

    pub Steady-raise : (e : Failure) → Steady (raise {A = A} e)
    Steady-raise e = Meets-raise e (λ w h. h)

    pub Steady-lift : (r : Result A) → Steady (lift r)
    Steady-lift r = Meets-lift r (λ a e w h. h) (λ e f w h. h)

  module _ (env : Env) where
    pub Steady-read_clock : Steady (read_clock env)
    unfolding read_clock
    Steady-read_clock = record {
      run = λ w h. record { same_portals = h.same_portals; same_jobs = h.same_jobs };
    }

    Steady-post : (q : HttpRequest) → Steady (post env q)
    unfolding post
    Steady-post q = record {
      run = λ w h. record { same_portals = h.same_portals; same_jobs = h.same_jobs };
    }

    module _ (client : BitrixClient) where
      pub Steady-call : (method : String) (params : Fields) → Steady (call env client method params)
      unfolding call
      Steady-call method params = Meets-bind (Steady-lift _) λ safe_method.
          Meets-if (has "auth" params) (Steady-raise _)
            (Meets-bind (Steady-post _) λ answer. Meets-bind Steady-read_clock λ now. Steady-lift _)

      field_type-Steady :
          (handler : String) → Steady (ensure_workflow_field_type env client handler)
      unfolding ensure_workflow_field_type
      field_type-Steady handler =
          Meets-bind (Steady-call _ _) λ listed. Meets-bind (Steady-lift _) λ found. Steady-call _ _

      module _ (base_url : String) where
        register_one-Steady :
            (existing : List String) (d : RobotDefinition)
            → Steady (register_one env client base_url existing d)
        unfolding register_one
        register_one-Steady existing d =
            Meets-if (member_of d.code existing)
              (Meets-bind (Steady-call _ _) λ response. Steady-pure _)
              (Meets-bind (Steady-call _ _) λ response. Steady-pure _)

        register_each-Steady :
            (existing : List String) (ds : List RobotDefinition)
            → Steady (register_each env client base_url existing ds)
        unfolding register_each
        register_each-Steady existing [] = Steady-pure _
        register_each-Steady existing (d ∷ ds) =
            Meets-bind (register_one-Steady existing d)
              λ status. Meets-bind (register_each-Steady existing ds) λ statuses. Steady-pure _

        robots-Steady :
            (registry : List RobotDefinition)
            → Steady (ensure_robots_registered env client base_url registry)
        unfolding ensure_robots_registered
        robots-Steady registry =
            Meets-bind (Steady-call _ _) λ listed.
              Meets-bind (Steady-lift _) λ existing. register_each-Steady existing registry

        events-Steady : Steady (ensure_uninstall_event_registered env client base_url)
        unfolding ensure_uninstall_event_registered
        events-Steady = Meets-bind (Steady-call _ _) λ listed. Meets-bind (Steady-lift _) λ bound.
            Meets-if bound (Steady-pure _) (Meets-bind (Steady-call _ _) λ response. Steady-pure _)

        delete_each-Steady :
            (duplicates : List String) → Steady (delete_each env client base_url duplicates)
        unfolding delete_each
        delete_each-Steady [] = Steady-pure _
        delete_each-Steady (d ∷ ds) =
            Meets-bind (Steady-call _ _)
              λ response. Meets-bind (delete_each-Steady ds) λ statuses. Steady-pure _

        activities-Steady : Steady (ensure_activities_registered env client base_url)
        unfolding ensure_activities_registered
        activities-Steady =
            Meets-bind (Steady-call _ _)
              λ listed. Meets-bind (Steady-lift _) λ existing. delete_each-Steady _

        registered-Steady :
            (settings : Settings) → Steady (field_type_registered env client base_url settings)
        unfolding field_type_registered
        registered-Steady settings =
            Meets-if settings.workflow_buttons_enabled
              (Meets-bind (field_type-Steady _) λ response. Steady-pure tt) (Steady-pure tt)

        pub ensure_all-Steady :
            (settings : Settings) (registry : List RobotDefinition)
            → Steady (ensure_all env client base_url settings registry)
        unfolding ensure_all
        ensure_all-Steady settings registry = Meets-bind (registered-Steady settings) λ x.
            Meets-bind (robots-Steady registry) λ robots.
              Meets-bind activities-Steady
                λ activities. Meets-bind events-Steady λ events. Steady-pure _
