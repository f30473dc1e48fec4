-- ===== src/Stratum/Router.antt =====
-- internal/stratum/router.go: the class of a mining device, by the first signature that matches.
pub mod Table
pub mod Live
pub mod Choice
mod Tests
use pipool.Base.{ℕ, Bool, ◌&&◌, ◌||◌, List, [], ◌∷◌, ◌++◌, Option, none, some, map, if◌then◌else◌}
use pipool.Go.Contains.{contains}
use pipool.Go.Float.{Float64}
use pipool.Go.Strings.{codes, str_eq, to_lower}

pub record DeviceClass (F : Type 0) : Type 0 where
  pub name : List ℕ
  pub algorithm : List ℕ
  pub start_diff : F
  pub max_diff : F
  pub description : List ℕ
  pub watts_estimate : F

pub record DeviceSignature (F : Type 0) : Type 0 where
  pub pattern : List ℕ
  pub class : DeviceClass F

module _ {F : Type 0} where
  -- The two tests of the loop.
  unfoldable pub matches : List ℕ → List ℕ → DeviceSignature F → Bool
  matches haystack algorithm sig =
      contains haystack sig.pattern
      && (str_eq sig.class.algorithm algorithm || str_eq sig.class.algorithm [])

  unfoldable pub first_match : List ℕ → List ℕ → List (DeviceSignature F) → Option (DeviceClass F)
  first_match haystack algorithm [] = none
  first_match haystack algorithm (sig ∷ table) =
      let rest = first_match haystack algorithm table in
      if matches haystack algorithm sig then some sig.class else rest

-- `strings.ToLower(userAgent + " " + workerName)`, of ASCII text.
unfoldable pub haystack_of : List ℕ → List ℕ → List ℕ
haystack_of user_agent worker_name = map to_lower (user_agent ++ (b' ' ∷ worker_name))

module _ {F : Type 0} (f64 : Float64 F) where
  unfoldable pub default_device : List ℕ → DeviceClass F
  default_device algorithm =
      if str_eq algorithm (codes "scrypt")
      then record {
        name = codes "Unknown (Scrypt)";
        algorithm = codes "scrypt";
        start_diff = f64.lit 1 3;
        max_diff = f64.lit 1024 0;
        description = codes "Unknown Scrypt miner";
        watts_estimate = f64.lit 100 0;
      }
      else if str_eq algorithm (codes "sha256d")
      then record {
        name = codes "Unknown (SHA-256d)";
        algorithm = codes "sha256d";
        start_diff = f64.lit 1 0;
        max_diff = f64.lit 1048576 0;
        description = codes "Unknown SHA-256d miner";
        watts_estimate = f64.lit 100 0;
      }
      else if str_eq algorithm (codes "scryptn")
      then record {
        name = codes "Unknown (Scrypt-N)";
        algorithm = codes "scryptn";
        start_diff = f64.lit 1 3;
        max_diff = f64.lit 512 0;
        description = codes "Unknown Scrypt-N miner";
        watts_estimate = f64.lit 65 0;
      }
      else record {
        name = codes "Unknown";
        algorithm = codes "sha256d";
        start_diff = f64.lit 1 0;
        max_diff = f64.lit 1024 0;
        description = codes "Unknown miner";
        watts_estimate = f64.lit 65 0;
      }

  unfoldable pub or_default : List ℕ → Option (DeviceClass F) → DeviceClass F
  or_default algorithm none = default_device algorithm
  or_default algorithm (some class) = class

  -- RouteWorker over a table of signatures.
  unfoldable pub route : List (DeviceSignature F) → List ℕ → List ℕ → List ℕ → DeviceClass F
  route table user_agent worker_name algorithm =
      or_default algorithm (first_match (haystack_of user_agent worker_name) algorithm table)
