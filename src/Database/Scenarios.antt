-- ===== src/Database/Scenarios.antt =====
-- A run of the process: uses of the database of app/database.py, and its end.
use b24_sinedis.Prelude.{◌≡◌, refl, some, List, [], ◌∷◌}
use b24_sinedis.Database.{
  Call, uses_engine, uses_session, disposes, unused, perform_all, IsTidy, perform_all-IsTidy,
}

abbrev calls : List Call
calls = uses_session ∷ uses_engine ∷ disposes ∷ uses_engine ∷ uses_session ∷ []

factory_renewed : (perform_all calls unused).session_factory ≡ some 1
unfolding perform_all
factory_renewed = refl

perform_all-IsTidy_example : IsTidy (perform_all calls unused)
perform_all-IsTidy_example = perform_all-IsTidy calls
