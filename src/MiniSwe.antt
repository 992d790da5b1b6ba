-- ===== src/MiniSwe.antt =====
-- src/tts/utils/mini_swe.py: the image of an instance's container, and its creation with retries.
-- `lower` is `str.lower`.
pub mod Retry
use tts_tokens_that_suffice.Prelude.{
  ℕ, zero, suc, ◌+◌, ◌-◌, Bool, true, false, not, ◌&&◌, ◌||◌, Option, none, some, List, [], ◌∷◌,
  ◌++◌, if◌then◌else◌, leb, ltb, ◌==◌, length, Text, codes, text_eq, occurs_in, is_nonempty, Error,
  other_error, Result, ◌>>=◌, err, ok,
}

-- `s.replace("__", token)`
unfoldable pub replace_double : Text → Text → Text
replace_double token [] = []
replace_double token (c ∷ []) = c ∷ []
replace_double token (c ∷ d ∷ s) =
    let doubled = token ++ replace_double token s in
    let rest = c ∷ replace_double token (d ∷ s) in if c == 95 && d == 95 then doubled else rest

-- `[a-f0-9]`
unfoldable pub is_commit_char : ℕ → Bool
is_commit_char c = (leb 97 c && leb c 102) || (leb 48 c && leb c 57)

-- The hexadecimal characters in front of a text, `n` of them at most.
unfoldable pub read_hex : ℕ → Text → Text
unfolding is_commit_char
read_hex zero s = []
read_hex (suc n) [] = []
read_hex (suc n) (c ∷ s) = let rest = read_hex n s in if is_commit_char c then c ∷ rest else []

-- What `\.[a-f0-9]{6,n}` takes, read greedily.
unfoldable pub read_commit : ℕ → Text → Option Text
unfolding read_hex
read_commit n [] = none
read_commit n (c ∷ s) =
    let hex = read_hex n s in if c == 46 && leb 6 (length hex) then some (c ∷ hex) else none

-- `^(.+?\.[a-f0-9]{6,n})`: behind at least one character, none of them a line feed.
unfoldable pub read_base_iid : ℕ → Text → Option Text
unfolding read_commit
read_base_iid n [] = none
read_base_iid n (c ∷ s) =
    let rest = read_base_iid n s in
    if c == 10 then none else elim (read_commit n s) [
      | some commit ↦ some (c ∷ commit)
      | none ↦ elim rest [ none ↦ none | some r ↦ some (c ∷ r) ]
    ]

-- `m.group(1) if m else iid`
unfoldable pub base_iid : ℕ → Text → Text
unfolding read_base_iid
base_iid n iid = elim (read_base_iid n iid) [ none ↦ iid | some b ↦ b ]

pub record Instance : Type 0 where
  pub instance_id : Text
  pub image_name : Option Text

-- What the code reads of the process: SWESMITH_SIF_DIR, SWESMITH_IMAGE_COMMIT, and which files exist.
pub record Host : Type 0 where
  pub sif_dir : Text
  pub image_commit : Text
  pub exists : Text → Bool

-- config["environment"]
pub record EnvConfig : Type 0 where
  pub environment_class : Option Text
  pub image : Option Text
  pub exec_args : Option (List Text)

module _ (lower : Text → Text) where
  unfoldable pub swesmith_sif_path : Host → Text → Option Text
  unfolding base_iid replace_double
  swesmith_sif_path host iid =
      let base_compat = lower (replace_double (codes "_1776_") (base_iid (length iid) iid)) in
      let path =
        host.sif_dir
        ++ codes "/lintangsutawika_agent-swe-smith_"
        ++ host.image_commit
        ++ codes "-jyangballin_s_swesmith.x86_64."
        ++ base_compat
        ++ codes "-source-minimal.sif" in
      if is_nonempty host.sif_dir && host.exists path then some path else none

  -- The name of an image in a registry, for an id with its underscores replaced.
  unfoldable pub image_in : Text → Text → Text
  image_in registry iid = lower (registry ++ iid ++ codes ":latest")

  unfoldable pub get_docker_image_name : Text → Instance → Result Text
  unfolding occurs_in image_in base_iid replace_double
  get_docker_image_name data_source i = elim i.image_name [
    | some name ↦ ok name
    | none ↦
        if occurs_in (codes "swe-gym") (lower data_source)
        then ok (
            image_in (codes "docker.io/xingyaoww/sweb.eval.x86_64.")
              (replace_double (codes "_s_") i.instance_id))
        else if occurs_in (codes "swe-bench") (lower data_source)
        then ok (
            image_in (codes "docker.io/swebench/sweb.eval.x86_64.")
              (replace_double (codes "_1776_") i.instance_id))
        else if occurs_in (codes "swe-smith") (lower data_source)
        then ok (
            image_in (codes "docker.io/jyangballin/swesmith.x86_64.")
              (replace_double (codes "_1776_") (base_iid 8 i.instance_id)))
        else err (other_error (codes "Data source: " ++ data_source ++ codes " is not supported"))
  ]

  unfoldable pub sif_of : Host → Text → Instance → Option Text
  unfolding swesmith_sif_path occurs_in
  sif_of host data_source i =
      if occurs_in (codes "swe-smith") (lower data_source)
      then swesmith_sif_path host i.instance_id
      else none

  -- env_config["image"], for the class of the environment; another class leaves what was there.
  unfoldable pub image_for : Text → Option Text → Text → Option Text
  unfolding text_eq
  image_for environment_class before name =
      if text_eq environment_class (codes "docker")
      then some name
      else if text_eq environment_class (codes "singularity")
      then some (codes "docker://" ++ name)
      else before

  unfoldable pub image_of : Host → Text → Instance → Text → Option Text → Result (Option Text)
  unfolding sif_of get_docker_image_name image_for
  image_of host data_source i environment_class before = elim (sif_of host data_source i) [
    | some path ↦ ok (some path)
    | none ↦
        get_docker_image_name data_source i >>= λ name. ok (image_for environment_class before name)
  ]

  unfoldable pub class_of : EnvConfig → Text
  class_of env = elim env.environment_class [ none ↦ codes "singularity" | some c ↦ c ]

  -- `env_config.setdefault("exec_args", ...)`, for singularity only
  unfoldable pub args_for : Text → Option (List Text) → Option (List Text)
  unfolding text_eq
  args_for environment_class (some args) = some args
  args_for environment_class none =
      if text_eq environment_class (codes "singularity")
      then some (
          codes "--contain"
          ∷ codes "--cleanenv"
          ∷ codes "--fakeroot"
          ∷ codes "--no-mount"
          ∷ codes "hostfs"
          ∷ [])
      else none

  -- What is written into the configuration in front of the attempts. The configuration is one object,
  -- which the workers of a batch share.
  unfoldable pub configure : Host → Text → Instance → EnvConfig → Result EnvConfig
  unfolding class_of image_of args_for
  configure host data_source i env =
      image_of host data_source i (class_of env) env.image >>= λ image. ok (record {
        environment_class = some (class_of env);
        image = image;
        exec_args = args_for (class_of env) env.exec_args;
      })
