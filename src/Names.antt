-- ===== src/Names.antt =====
-- Object names in internal/controller/jobs.go: truncName and nameWithSuffix.
pub mod Bounds
use kuberag.Prelude.{
  leb, if◌then◌else◌, length, take, trim_right, Text, codes, ℕ, ◌+◌, ◌-◌, ◌*◌, ◌∷◌, ◌++◌,
}
use kuberag.Platform.{Platform}

-- `hex.EncodeToString(sum[:n])`, also as `fmt.Sprintf("%x", sum[:n])`.
unfoldable pub hex_prefix : Platform → ℕ → Text → Text
hex_prefix p n t = take (2 * n) (p.sha256_hex t)

unfoldable pub trunc_name : Platform → Text → Text
trunc_name p name =
    if leb (length name) 63
    then name
    else let hash = hex_prefix p 4 name in
      trim_right b'-' (take (63 - 1 - length hash) name) ++ b'-' ∷ hash

unfoldable pub name_with_suffix : Platform → Text → Text → Text
name_with_suffix p name suffix =
    if leb (length name + length suffix) 63
    then name ++ suffix
    else let hash = hex_prefix p 4 (name ++ suffix) in
      let max_base = 63 - length suffix - 1 - length hash in
      trim_right b'-' (take max_base name) ++ b'-' ∷ hash ++ suffix

pub result_config_map_name : Platform → Text → Text
result_config_map_name p job = name_with_suffix p job (codes "-result")

pub checkpoint_config_map_name : Platform → Text → Text
checkpoint_config_map_name p job = name_with_suffix p job (codes "-checkpoint")

pub spec_config_map_name : Platform → Text → Text
spec_config_map_name p job = name_with_suffix p job (codes "-spec")
