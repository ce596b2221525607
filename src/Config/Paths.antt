-- ===== src/Config/Paths.antt =====
-- The paths in a configuration: `getPath`, `getPathWithExtension` and `getPathArray` of Configuration.cpp.
use allpix_fork.Base.{
  Bool, List, Str, lookup, Result, ok, err, ◌>>=◌, catch, map_result, Error, invalid_argument,
  invalid_value,
}
use allpix_fork.Text.{from_string_str}
use allpix_fork.Config.{Configuration, FileSystem, path_to_absolute}
use allpix_fork.Config.Access.{get, get_array, text_of}

-- The handler: `InvalidValueError` for a path that is not found.
abbrev pub path_error {ℓ} : {A : Type ℓ} → Str → Configuration → Error → Result A
unfolding lookup
path_error key c (invalid_argument r) =
    err (invalid_value key c.name (text_of (lookup key c.config)))
path_error key c e = err e

module _ (fs : FileSystem) where
  unfoldable pub get_path : Configuration → Str → Bool → Result (Str × Configuration)
  unfolding get from_string_str path_to_absolute
  get_path c key check_exists =
      catch
        (get from_string_str c key >>= λ r.
          path_to_absolute fs r.1 r.0 check_exists >>= λ path. ok (path, r.1))
        (path_error key c)

  -- `replace_extension` is that of `std::filesystem::path`.
  unfoldable pub get_path_with_extension :
      (Str → Str → Str) → Configuration → Str → Str → Bool → Result (Str × Configuration)
  unfolding get from_string_str path_to_absolute
  get_path_with_extension replace_extension c key extension check_exists =
      catch
        (get from_string_str c key >>= λ r.
          path_to_absolute fs r.1 (replace_extension r.0 extension) check_exists >>= λ path.
          ok (path, r.1))
        (path_error key c)

  unfoldable pub get_path_array : Configuration → Str → Bool → Result (List Str × Configuration)
  unfolding get_array from_string_str path_to_absolute
  get_path_array c key check_exists =
      catch
        (get_array from_string_str c key >>= λ r.
          map_result (λ path. path_to_absolute fs r.1 path check_exists) r.0 >>= λ paths.
          ok (paths, r.1))
        (path_error key c)
