-- ===== src/Tests/Containers.antt =====
-- Images, attempts and configurations of containers.
use tts_tokens_that_suffice.Prelude.{
  ℕ, zero, suc, ◌≡◌, refl, false, none, some, Option, [], Text, codes, other_error, Error, Result,
  err, ok, arith,
}
use tts_tokens_that_suffice.MiniSwe.{
  Instance, Host, EnvConfig, get_docker_image_name, configure, base_iid,
}
use tts_tokens_that_suffice.MiniSwe.Retry.{
  create_environment, IsSettled, create_environment-IsSettled,
}

abbrev as_is : Text → Text
as_is t = t

abbrev numbered : ℕ → Instance
numbered zero = record { instance_id = codes "o__r-1"; image_name = none }
numbered (suc n) = record { instance_id = codes "o__r-2"; image_name = none }

commit_run : base_iid 8 (codes "o__r.0123abcd.func__1") ≡ codes "o__r.0123abcd"
unfolding base_iid
commit_run = refl

image_run :
    get_docker_image_name as_is (codes "swe-bench") (numbered 0)
    ≡ ok (codes "docker.io/swebench/sweb.eval.x86_64.o_1776_r-1:latest")
unfolding get_docker_image_name
image_run = refl

-- Two builds that fail and one that succeeds.
abbrev third_time : ℕ → Result ℕ
third_time zero = err (other_error (codes "stale NFS handle"))
third_time (suc zero) = err (other_error (codes "stale NFS handle"))
third_time (suc (suc n)) = ok n

abbrev str_of : Error → Text
str_of (other_error t) = t
str_of e = []

third_run : create_environment str_of 3 third_time ≡ ok (some 0)
unfolding create_environment
third_run = refl

create_environment-IsSettled_example :
    IsSettled str_of 3 third_time 0 (create_environment str_of 3 third_time)
create_environment-IsSettled_example =
    create_environment-IsSettled str_of 3 third_time (omega arith)

abbrev bare_host : Host
bare_host = record { sif_dir = []; image_commit = []; exists = λ p. false }

abbrev with_image : Option Text → EnvConfig
with_image image = record {
  environment_class = some (codes "docker");
  image = image;
  exec_args = none;
}

abbrev image_at : Text → EnvConfig
image_at i = with_image (some i)

abbrev of_first : EnvConfig
of_first = image_at (codes "docker.io/swebench/sweb.eval.x86_64.o_1776_r-1:latest")

abbrev of_second : EnvConfig
of_second = image_at (codes "docker.io/swebench/sweb.eval.x86_64.o_1776_r-2:latest")

-- Two instances, configured one after the other.
first_run :
    configure as_is bare_host (codes "swe-bench") (numbered 0) (with_image none) ≡ ok of_first
unfolding configure
first_run = refl

second_run : configure as_is bare_host (codes "swe-bench") (numbered 1) of_first ≡ ok of_second
unfolding configure
second_run = refl
