-- ===== src/Store/Staged.antt =====
-- internal/service/servicetest/stores.go: the path of a pre-staged file, and its bytes.
use text.Mathlib.Text.{starts_with}
use Prim.Native.String.{len}
use atlas_c.Base.{
  ℕ, zero, suc, ◌+◌, String, Bool, ◌||◌, Option, none, some, List, length, ltb, nat_eq, ◌==◌, not,
  if◌then◌else◌, Result, ok, err, pass, ◌>>=◌, ◌>>◌,
}
use atlas_c.Base.Int.{ℤ, pos, negsuc}
use atlas_c.Model.Errors.{invalid, payload_too_large}
use atlas_c.Store.Files.{Reader, read_limited}

-- os.FileInfo, as far as it is read.
pub record FileInfo : Type 0 where
  pub size : ℕ
  pub is_symlink : Bool
  pub is_regular : Bool

-- What the packages path/filepath and os answer: none for an error of the path functions.
pub record FileSystem : Type 0 where
  pub abs : String → Option String
  pub eval_symlinks : String → Option String
  pub dir : String → String
  pub base : String → String
  pub join : String → String → String
  pub rel : String → String → Option String
  pub lstat : String → Result FileInfo
  pub open_file : String → Result Reader

abbrev pre_staged : {A : Type 0} → String → Result A
pre_staged message = err (invalid "pre_staged" "invalid_value" message)

unfoldable pub resolved : Option String → Result String
resolved none = pre_staged "pre-staged path could not be resolved"
resolved (some path) = ok path

unfoldable pub demand : Bool → String → Result (Unit {0})
demand test message = if test then pass else pre_staged message

module _ (fs : FileSystem) where
  -- The loop of stagingDirForPath from `dir` on; each round shortens it, so its length is fuel enough.
  unfoldable pub staging_dir_from : ℕ → String → String
  staging_dir_from zero dir = ""
  staging_dir_from (suc fuel) dir =
      let rest = staging_dir_from fuel (fs.dir dir) in
      if dir == "." || dir == "/" then "" else if fs.base dir == "staging" then dir else rest

  -- stagingDirForPath
  unfoldable pub staging_dir_for_path : String → String
  unfolding staging_dir_from
  staging_dir_for_path path = staging_dir_from (suc (len path)) (fs.dir path)

  -- pathWithinDir; none is the error.
  unfoldable pub path_within_dir : String → String → Option Bool
  path_within_dir dir path = elim (fs.rel dir path) [
    | none ↦ none
    | some rel ↦ some (not (rel == ".." || starts_with rel "../"))
  ]

  unfoldable pub demand_within : Option Bool → Result (Unit {0})
  demand_within none = pre_staged "pre-staged path could not be resolved"
  demand_within (some within) = demand within "pre-staged path must be within the staging directory"

  -- validatePreStagedPath, without the info that it hands back as it got it.
  unfoldable pub validate_pre_staged_path : String → FileInfo → Result String
  unfolding resolved demand demand_within
  validate_pre_staged_path path info = do
    abs_path ← resolved (fs.abs path)
    let staging_dir = staging_dir_for_path abs_path
    demand (not (staging_dir == "")) "pre-staged path must be within the staging directory"
    abs_staging ← resolved (fs.abs staging_dir)
    resolved_staging ← resolved (fs.eval_symlinks abs_staging)
    demand (not info.is_symlink) "pre-staged path must not be a symbolic link"
    demand info.is_regular "pre-staged path must be a regular file"
    resolved_parent ← resolved (fs.eval_symlinks (fs.dir abs_path))
    let resolved_path = fs.join resolved_parent (fs.base abs_path)
    demand_within (path_within_dir resolved_staging resolved_path)
    ok resolved_path

  -- The size that the caller states, which is no negative number.
  unfoldable pub stated_size : ℤ → Result ℕ
  stated_size (pos n) = ok n
  stated_size (negsuc n) = pre_staged "pre-staged size must not be negative"

  unfoldable pub check_staged_size : ℕ → ℕ → ℕ → Result (Unit {0})
  check_staged_size limit stated size =
      if not (nat_eq size stated)
      then pre_staged "pre-staged size does not match file"
      else if nat_eq size 0
      then err (invalid "file" "required" "file bytes are required")
      else if ltb limit size
      then err (payload_too_large "upload exceeds configured limit")
      else pass

  -- The pre-staged branch of CreateObjectFile; the removal of the file at its end is left out.
  unfoldable pub read_staged : String → ℤ → ℕ → Result (List ℕ)
  unfolding stated_size check_staged_size validate_pre_staged_path demand
  read_staged path size limit = do
    stated ← stated_size size
    info ← fs.lstat path
    resolved_path ← validate_pre_staged_path path info
    file ← fs.open_file resolved_path
    check_staged_size limit stated info.size
    bytes ← read_limited (info.size + 1) file
    demand (nat_eq (length bytes) info.size) "pre-staged file size changed during read"
    ok bytes
