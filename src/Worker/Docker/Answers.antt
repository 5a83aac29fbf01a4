-- ===== src/Worker/Docker/Answers.antt =====
-- What worker/docker_manager.py gets from the Docker SDK, `os` and `shutil`, and what it asks them.
use the_grid_x.Base.{ℕ, ℤ, Bool, Option, List, Text, Dict}
use the_grid_x.Worker.Exec.{Failure, Attempt}

-- The arguments of `containers.create`; none where a key is left out. A limit on memory counts
-- megabytes. Of a device request this is the count.
pub record DockerConfig : Type 0 where
  pub image : Text
  pub command : Option (List Text)
  pub environment : Dict Text
  pub working_dir : Text
  pub detach : Bool
  pub auto_remove : Bool
  pub network_disabled : Bool
  pub read_only : Bool
  pub security_opt : List Text
  pub cap_drop : List Text
  pub cap_add : List Text
  pub cpu_quota : Option ℕ
  pub cpu_period : Option ℕ
  pub mem_limit : Option ℕ
  pub device_requests : List ℕ
  pub user : Text
  pub volumes : Dict (Text × Text)
  pub tmpfs : Dict Text
  pub labels : Dict Text

-- What `container.stats` gives; none where a key is missing.
pub record RawStats : Type 0 where
  pub cpu_total : Option ℕ
  pub precpu_total : Option ℕ
  pub system_cpu : Option ℕ
  pub pre_system_cpu : Option ℕ
  pub memory_usage : Option ℕ
  pub memory_limit : Option ℕ

-- The answer of `images.get`.
pub data Image : Type 0 where
  present missing : Image
  unreachable : Failure → Image

-- What each call answers, by the container, the image or the path that it is about. A call without
-- a value has the exception that it raises, if any; `rmtree` ignores its errors, and says here
-- whether the directory is gone. `expires` says whether `asyncio.wait_for` gives up on a container.
pub record Sdk : Type 0 where
  pub get_image : Text → Image
  pub pull_image : Text → Option Failure
  pub create : DockerConfig → Option Failure
  pub start : Text → Option Failure
  pub stop : Text → Option Failure
  pub remove : Text → Option Failure
  pub wait : Text → Attempt ℤ
  pub expires : Text → Bool
  pub logs : Text → Attempt Text
  pub stats : Text → Attempt RawStats
  pub makedirs : Text → Option Failure
  pub write : Text → Option Failure
  pub rmtree : Text → Bool

-- A call that changed something.
pub data Call : Type 0 where
  pulled_image : (image : Text) → Call
  created : DockerConfig → Call
  began stopped removed : (container_id : Text) → Call
  made emptied : (path : Text) → Call
  wrote : (path content : Text) → Call
