-- ===== src/Worker/Docker/Removed.antt =====
-- worker/docker_manager.py: which containers the manager has after each of its methods.
use the_grid_x.Base.{
  ◌≡◌, refl, true, false, Option, none, some, List, [], ◌∷◌, Text, text_eq_refl, Dict, lookup,
  erase, lookup-erase, arith, Option-cases, inl, inr,
}
use the_grid_x.Worker.Exec.{Failure, pure, gets, change, ◌>>=◌}
use the_grid_x.Worker.Exec.Keeps.{
  Keeps, Keeps-pure, Keeps-raise, Keeps-gets, Keeps-if, Keeps-done, Keeps-change, Keeps-bind,
}
use the_grid_x.Worker.Exec.Ensures.{
  Ensures, Ensures-Keeps, Ensures-both, Ensures-pure, Ensures-raise, Ensures-if, Ensures-bind,
}
use the_grid_x.Worker.Docker.Answers.{
  Sdk, DockerConfig, Image, present, missing, unreachable, Call, stopped,
}
use the_grid_x.Worker.Docker.Config.{ContainerConfig}
use the_grid_x.Worker.Docker.Manager.{
  DockerManager, without, is_member, make_workspace, remove_workspace, by_image, ensure_image,
  named, add_container, create_available, create_container, is_managed, caught, stop_container,
  clean_up, by_removal, remove_found, remove_container,
}

-- What leaves the containers as they are.
module _ (R : Dict DockerConfig → Type 0) (sdk : Sdk) where
  abbrev Held : DockerManager → Type 0
  Held m = R m.containers

  pub make_workspace-Held : (path : Text) → Keeps Held (make_workspace sdk path)
  unfolding make_workspace
  make_workspace-Held path = Keeps-bind _ _ (Keeps-done _) (λ _. Keeps-change _ (λ m h. h))

  pub remove_workspace-Held : (path : Text) → Keeps Held (remove_workspace sdk path)
  unfolding remove_workspace
  remove_workspace-Held path = Keeps-if _ _ _ (Keeps-change _ (λ m h. h)) (Keeps-pure tt)

  by_image-Held : (answer : Image) (image : Text) → Keeps Held (by_image sdk answer image)
  by_image-Held present image = Keeps-pure tt
  by_image-Held (unreachable e) image = Keeps-raise e
  by_image-Held missing image = Keeps-bind _ _ (Keeps-done _) (λ _. Keeps-change _ (λ m h. h))

  pub ensure_image-Held : (image : Text) → Keeps Held (ensure_image sdk image)
  unfolding ensure_image
  ensure_image-Held image = by_image-Held (sdk.get_image image) image

  pub caught-Held : (call : Call) (e : Option Failure) → Keeps Held (caught sdk call e)
  caught-Held call none = Keeps-bind _ _ (Keeps-change _ (λ m h. h)) (λ _. Keeps-pure true)
  caught-Held call (some e) = Keeps-pure false

  pub stop_container-Held : (container_id : Text) → Keeps Held (stop_container sdk container_id)
  unfolding stop_container is_managed
  stop_container-Held container_id =
      Keeps-bind _ _ (Keeps-gets _) (λ m. Keeps-if m _ _ (caught-Held _ _) (Keeps-pure false))

  pub clean_up-Held : (path : Option Text) → Keeps Held (clean_up sdk path)
  unfolding clean_up
  clean_up-Held none = Keeps-pure tt
  clean_up-Held (some path) =
      Keeps-bind _ _ (Keeps-gets _)
        (λ exists. Keeps-if _ _ _ (remove_workspace-Held path) (Keeps-pure tt))

module _ (sdk : Sdk) (container_id : Text) where
  -- No container has the id.
  abbrev pub Absent : DockerManager → Type 0
  Absent m = lookup container_id m.containers ≡ none

  abbrev Gone : Dict DockerConfig → Type 0
  Gone d = lookup container_id d ≡ none

  add_container-Absent :
      (id : Text) (c : DockerConfig)
      → Ensures Absent (add_container sdk id c) (λ _ _. Unit {0}) Absent
  unfolding add_container change
  add_container-Absent id c =
      Ensures-bind Absent (λ _ m. Absent m) (λ _ _. Unit {0}) Absent _ _
        (Ensures-Keeps _ (Keeps-done (sdk.create c))) (λ _. record { at = λ m h. tt })

  -- A container is there only where the creation returns, and then its id is returned.
  pub create_container-Absent :
      (fresh_id fresh : Text) (config : ContainerConfig) (named_id workspace_path : Option Text)
      → named sdk fresh_id named_id ≡ container_id
      → Ensures Absent
          (create_container sdk fresh_id fresh config named_id workspace_path)
          (λ r _. r.0 ≡ container_id)
          Absent
  unfolding create_container create_available
  create_container-Absent fresh_id fresh config named_id workspace_path e =
      Ensures-bind Absent (λ _ m. Absent m) _ Absent _ _ (Ensures-Keeps _ (Keeps-gets _))
        (λ available.
          Ensures-if _ _ available _ _
            (Ensures-bind Absent (λ _ m. Absent m) _ Absent _ _
              (Ensures-Keeps _ (make_workspace-Held Gone sdk _))
              (λ _.
                Ensures-bind Absent (λ _ m. Absent m) _ Absent _ _
                  (Ensures-Keeps _ (ensure_image-Held Gone sdk _))
                  (λ _.
                    Ensures-bind Absent (λ _ _. Unit) _ Absent _ _ (add_container-Absent _ _)
                      (λ _. Ensures-pure _ _ _ (λ m h. e)))))
            (Ensures-raise _ _))

  -- A caught exception is none.
  caught-returns :
      (call : Call) (e : Option Failure)
      → Ensures (λ _. Unit {0}) (caught sdk call e) (λ _ _. Unit {0}) Absent
  unfolding ◌>>=◌ change pure
  caught-returns call none = record { at = λ m h. tt }
  caught-returns call (some e) = record { at = λ m h. tt }

  erase-Absent : (d : Dict DockerConfig) → lookup container_id (erase container_id d) ≡ none
  erase-Absent d = rw (lookup-erase container_id container_id d, text_eq_refl container_id) refl

  by_removal-Absent :
      (c : DockerConfig)
      → Ensures (λ _. Unit {0}) (by_removal sdk container_id c none) (λ _ m. Absent m) Absent
  unfolding change
  by_removal-Absent c =
      Ensures-bind _ (λ _ m. Absent m) _ Absent _ _
        (record { at = λ m h. erase-Absent m.containers })
        (λ _.
          Ensures-bind Absent (λ _ m. Absent m) _ Absent _ _
            (Ensures-Keeps _ (clean_up-Held Gone sdk _)) (λ _. Ensures-Keeps _ (Keeps-pure true)))

  remove_found-Absent :
      (c : DockerConfig)
      → sdk.remove container_id ≡ none
      → (m : DockerManager) → Absent (remove_found sdk container_id (some c) m).1
  remove_found-Absent c works m =
      Ensures-both (remove_found sdk container_id (some c))
        (Ensures-bind (λ _. Unit {0}) (λ _ _. Unit {0}) _ Absent _ _
          (caught-returns (stopped container_id) (sdk.stop container_id))
          (λ _. rw works (by_removal-Absent c)))
        m tt

  -- Where Docker removes it, the container is gone, if it was there at all.
  pub remove_container-Absent :
      sdk.remove container_id ≡ none
      → (m : DockerManager) → Absent (remove_container sdk container_id m).1
  unfolding remove_container ◌>>=◌ gets pure
  remove_container-Absent works m = elim (Option-cases (lookup container_id m.containers)) [
    | inl absent ↦ rw absent absent
    | inr (c, e) ↦ rw e (remove_found-Absent c works m)
  ]

is_member-without : (path : Text) (ws : List Text) → is_member path (without path ws) ≡ false
is_member-without path [] = refl
is_member-without path (w ∷ ws) = ground (arith, is_member-without path ws)

module _ (sdk : Sdk) where
  pub remove_workspace-gone :
      (path : Text) (m : DockerManager)
      → sdk.rmtree path ≡ true
      → is_member path (remove_workspace sdk path m).1.workspaces ≡ false
  unfolding remove_workspace change
  remove_workspace-gone path m works = rw works (is_member-without path m.workspaces)
