-- ===== src/Worker/Docker/Secure.antt =====
-- worker/docker_manager.py: which containers the methods of `DockerManager` create.
use the_grid_x.Base.{true, false, Option, none, some, [], ◌∷◌, All, All-append, Text}
use the_grid_x.Worker.Exec.{Failure}
use the_grid_x.Worker.Exec.Keeps.{
  Keeps, Keeps-pure, Keeps-raise, Keeps-gets, Keeps-if, Keeps-done, Keeps-change, Keeps-bind,
  keeps_rules,
}
use the_grid_x.Worker.Docker.Answers.{
  Sdk, DockerConfig, Image, present, missing, unreachable, Call, created, pulled_image, removed,
  made, emptied,
}
use the_grid_x.Worker.Docker.Config.{ContainerConfig, workspace_of, secure_config}
use the_grid_x.Worker.Docker.Manager.{
  DockerManager, called, make_workspace, remove_workspace, by_image, ensure_image, labelled, named,
  add_container, create_available, create_container, is_managed, find_container, caught,
  start_container, stop_container, clean_up, by_removal, remove_found, remove_container,
  get_container_logs, get_container_stats, wait_for_container,
}

-- A container that is created has the property.
abbrev pub Creates : (DockerConfig → Type 0) → Call → Type 0
Creates P (created c) = P c
Creates P _ = Unit

abbrev pub AllCreate : (DockerConfig → Type 0) → DockerManager → Type 0
AllCreate P m = All (Creates P) m.calls

module _ (P : DockerConfig → Type 0) where
  -- One more call.
  pub called-AllCreate :
      (call : Call) (m : DockerManager)
      → Creates P call
      → AllCreate P m
      → AllCreate P (called call m)
  called-AllCreate call m c h = All-append (Creates P) m.calls (call ∷ []) h (c, tt)

module _ (P : DockerConfig → Type 0) (sdk : Sdk) where
  pub make_workspace-AllCreate : (path : Text) → Keeps (AllCreate P) (make_workspace sdk path)
  unfolding make_workspace
  make_workspace-AllCreate path =
      Keeps-bind _ _ (Keeps-done _)
        (λ _. Keeps-change _ (λ m h. called-AllCreate P (made path) m tt h))

  pub remove_workspace-AllCreate : (path : Text) → Keeps (AllCreate P) (remove_workspace sdk path)
  unfolding remove_workspace
  remove_workspace-AllCreate path =
      Keeps-if _ _ _ (Keeps-change _ (λ m h. called-AllCreate P (emptied path) m tt h))
        (Keeps-pure tt)

  by_image-AllCreate :
      (answer : Image) (image : Text) → Keeps (AllCreate P) (by_image sdk answer image)
  by_image-AllCreate present image = Keeps-pure tt
  by_image-AllCreate (unreachable e) image = Keeps-raise e
  by_image-AllCreate missing image =
      Keeps-bind _ _ (Keeps-done _)
        (λ _. Keeps-change _ (λ m h. called-AllCreate P (pulled_image image) m tt h))

  -- A new container needs the property.
  pub add_container-AllCreate :
      (container_id : Text) (c : DockerConfig)
      → P c
      → Keeps (AllCreate P) (add_container sdk container_id c)
  unfolding add_container
  add_container-AllCreate container_id c p =
      Keeps-bind _ _ (Keeps-done _)
        (λ _. Keeps-change _ (λ m h. called-AllCreate P (created c) m p h))

  ensure_image-AllCreate : (image : Text) → Keeps (AllCreate P) (ensure_image sdk image)
  unfolding ensure_image
  ensure_image-AllCreate image = by_image-AllCreate (sdk.get_image image) image

  pub create_container-AllCreate :
      (fresh_id fresh : Text) (config : ContainerConfig) (container_id workspace_path : Option Text)
      → P (
          labelled sdk
            (workspace_of fresh workspace_path)
            (named sdk fresh_id container_id)
            (secure_config config (workspace_of fresh workspace_path)))
      → Keeps (AllCreate P) (create_container sdk fresh_id fresh config container_id workspace_path)
  unfolding create_container create_available
  create_container-AllCreate fresh_id fresh config container_id workspace_path p =
      Keeps-bind _ _ (Keeps-gets _) (λ available.
        Keeps-if available _ _
          (Keeps-bind _ _ (make_workspace-AllCreate _) (λ _.
            Keeps-bind _ _ (ensure_image-AllCreate _)
              (λ _. Keeps-bind _ _ (add_container-AllCreate _ _ p) (λ _. Keeps-pure _))))
          (Keeps-raise _))

  caught-AllCreate :
      (call : Call) (e : Option Failure) → Creates P call → Keeps (AllCreate P) (caught sdk call e)
  caught-AllCreate call none c =
      Keeps-bind _ _ (Keeps-change _ (λ m h. called-AllCreate P call m c h)) (λ _. Keeps-pure true)
  caught-AllCreate call (some e) c = Keeps-pure false

  pub find_container-AllCreate :
      (container_id : Text) → Keeps (AllCreate P) (find_container sdk container_id)
  unfolding find_container is_managed
  find_container-AllCreate container_id = search (keeps_rules)

  pub start_container-AllCreate :
      (container_id : Text) → Keeps (AllCreate P) (start_container sdk container_id)
  unfolding start_container
  start_container-AllCreate container_id =
      search (keeps_rules, find_container-AllCreate, caught-AllCreate)

  pub stop_container-AllCreate :
      (container_id : Text) → Keeps (AllCreate P) (stop_container sdk container_id)
  unfolding stop_container is_managed
  stop_container-AllCreate container_id = search (keeps_rules, caught-AllCreate)

  clean_up-AllCreate : (path : Option Text) → Keeps (AllCreate P) (clean_up sdk path)
  unfolding clean_up
  clean_up-AllCreate none = Keeps-pure tt
  clean_up-AllCreate (some path) = search (keeps_rules, remove_workspace-AllCreate)

  by_removal-AllCreate :
      (container_id : Text) (c : DockerConfig) (e : Option Failure)
      → Keeps (AllCreate P) (by_removal sdk container_id c e)
  by_removal-AllCreate container_id c (some e) = Keeps-pure false
  by_removal-AllCreate container_id c none =
      Keeps-bind _ _ (Keeps-change _ (λ m h. called-AllCreate P (removed container_id) m tt h))
        (λ _. search (keeps_rules, clean_up-AllCreate))

  remove_found-AllCreate :
      (container_id : Text) (found : Option DockerConfig)
      → Keeps (AllCreate P) (remove_found sdk container_id found)
  remove_found-AllCreate container_id none = Keeps-pure false
  remove_found-AllCreate container_id (some c) =
      search (keeps_rules, caught-AllCreate, by_removal-AllCreate)

  pub remove_container-AllCreate :
      (container_id : Text) → Keeps (AllCreate P) (remove_container sdk container_id)
  unfolding remove_container
  remove_container-AllCreate container_id = search (keeps_rules, remove_found-AllCreate)

  pub wait_for_container-AllCreate :
      (container_id : Text) → Keeps (AllCreate P) (wait_for_container sdk container_id)
  unfolding wait_for_container
  wait_for_container-AllCreate container_id = search (keeps_rules, find_container-AllCreate)

  pub get_container_logs-AllCreate :
      (container_id : Text) → Keeps (AllCreate P) (get_container_logs sdk container_id)
  unfolding get_container_logs
  get_container_logs-AllCreate container_id = search (keeps_rules, find_container-AllCreate)

  pub get_container_stats-AllCreate :
      (container_id : Text) → Keeps (AllCreate P) (get_container_stats sdk container_id)
  unfolding get_container_stats
  get_container_stats-AllCreate container_id = search (keeps_rules, find_container-AllCreate)
