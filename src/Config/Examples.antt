-- ===== src/Config/Examples.antt =====
-- The checks of the configuration on the default configuration.
use hetero_paged_infer.Prelude.{◌≡◌, refl}
use hetero_paged_infer.Prelude.Results.{ok}
use hetero_paged_infer.Prelude.Float.{fixed_point}
use hetero_paged_infer.Config.{default_config, validate, is_hugging_face, is_blank, is_white_space}
use hetero_paged_infer.Config.Limits.{Usable, validate-Usable}

default_accepted : validate fixed_point default_config ≡ ok tt
unfolding validate is_hugging_face is_blank is_white_space
default_accepted = refl

validate-Usable_example : Usable fixed_point default_config
validate-Usable_example = validate-Usable fixed_point default_config default_accepted
