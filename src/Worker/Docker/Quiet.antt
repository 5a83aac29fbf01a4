-- ===== src/Worker/Docker/Quiet.antt =====
-- worker/docker_manager.py: the methods of `DockerManager` that raise nothing.
use the_grid_x.Base.{true, false, Option, none, some, Text}
use the_grid_x.Worker.Exec.{Failure, Exec, pure, gets, change, ◌>>=◌}
use the_grid_x.Worker.Exec.Ensures.{
  Ensures, Ensures-bind, Ensures-pure, Ensures-gets, Ensures-change, Ensures-if,
}
use the_grid_x.Worker.Docker.Answers.{Sdk, DockerConfig, Call}
use the_grid_x.Worker.Docker.Manager.{
  DockerManager, remove_workspace, caught, clean_up, by_removal, remove_found, remove_container,
}

abbrev pub IsQuiet : {A : Type 0} → Exec DockerManager A → Type 0
IsQuiet m = Ensures (λ _. Unit {0}) m (λ _ _. Unit {0}) (λ _. ⊥)

module _ {A B : Type 0} where
  bind-IsQuiet :
      (m : Exec DockerManager A) (f : A → Exec DockerManager B)
      → IsQuiet m
      → ((a : A) → IsQuiet (f a))
      → IsQuiet (m >>= f)
  bind-IsQuiet = Ensures-bind (λ _. Unit {0}) (λ _ _. Unit {0}) (λ _ _. Unit {0}) (λ _. ⊥)

module _ {A : Type 0} where
  pure-IsQuiet : (a : A) → IsQuiet (pure a)
  pure-IsQuiet a = Ensures-pure _ _ a (λ m h. tt)

  gets-IsQuiet : (f : DockerManager → A) → IsQuiet (gets f)
  gets-IsQuiet f = Ensures-gets _ _ f (λ m h. tt)

change-IsQuiet : (f : DockerManager → DockerManager) → IsQuiet (change f)
change-IsQuiet f = Ensures-change _ _ f (λ m h. tt)

module _ (sdk : Sdk) where
  pub remove_workspace-IsQuiet : (path : Text) → IsQuiet (remove_workspace sdk path)
  unfolding remove_workspace
  remove_workspace-IsQuiet path =
      Ensures-if _ _ (sdk.rmtree path) _ _ (change-IsQuiet _) (pure-IsQuiet tt)

  caught-IsQuiet : (call : Call) (e : Option Failure) → IsQuiet (caught sdk call e)
  caught-IsQuiet call none = bind-IsQuiet _ _ (change-IsQuiet _) (λ _. pure-IsQuiet true)
  caught-IsQuiet call (some e) = pure-IsQuiet false

  clean_up-IsQuiet : (path : Option Text) → IsQuiet (clean_up sdk path)
  unfolding clean_up
  clean_up-IsQuiet none = pure-IsQuiet tt
  clean_up-IsQuiet (some path) =
      bind-IsQuiet _ _ (gets-IsQuiet _)
        (λ exists. Ensures-if _ _ _ _ _ (remove_workspace-IsQuiet path) (pure-IsQuiet tt))

  by_removal-IsQuiet :
      (container_id : Text) (c : DockerConfig) (e : Option Failure)
      → IsQuiet (by_removal sdk container_id c e)
  by_removal-IsQuiet container_id c (some e) = pure-IsQuiet false
  by_removal-IsQuiet container_id c none =
      bind-IsQuiet _ _ (change-IsQuiet _)
        (λ _. bind-IsQuiet _ _ (clean_up-IsQuiet _) (λ _. pure-IsQuiet true))

  remove_found-IsQuiet :
      (container_id : Text) (found : Option DockerConfig)
      → IsQuiet (remove_found sdk container_id found)
  remove_found-IsQuiet container_id none = pure-IsQuiet false
  remove_found-IsQuiet container_id (some c) =
      bind-IsQuiet _ _ (caught-IsQuiet _ _) (λ _. by_removal-IsQuiet container_id c _)

  pub remove_container-IsQuiet : (container_id : Text) → IsQuiet (remove_container sdk container_id)
  unfolding remove_container
  remove_container-IsQuiet container_id =
      bind-IsQuiet _ _ (gets-IsQuiet _) (λ found. remove_found-IsQuiet container_id found)
