-- ===== src/Schedules/Config/Checks.antt =====
-- What an accepted target path is.
use Prim.Native.String.{String}
use agapornis_api.Common.{false, Option, ◌≡◌, refl, arith, any, ok, ◌≤◌}
use agapornis_api.Common.Text.{
  text_or, trim, text_length, is_empty, any_char, replace_char, strip, split, is_char,
}
use agapornis_api.Common.Text.Splits.{any_char-strip, any_char-replace_char, join-split}
use agapornis_api.Schedules.Config.{
  check_target_path, is_control, is_unsafe_segment, slash, backslash,
}

-- A target path that is accepted: split at its slashes it has no part that is empty, `.` or `..`;
-- it has no backslash and no control character, is not empty, and is at most 1024 units long.
pub check_target_path_safe :
    (value : Option String) (path : String)
    → check_target_path value ≡ ok path
    → (any is_unsafe_segment (split slash path) ≡ false)
      × (any_char (is_char b'\\') path ≡ false)
      × (any_char is_control path ≡ false)
      × (is_empty path ≡ false)
      × (text_length path ≤ 1024)
unfolding check_target_path
check_target_path_safe value path h =
    let dirty = replace_char backslash slash (trim (text_or value "")) in
    let raw = strip (is_char b'/') dirty in
    let same : path ≡ raw = ground (arith, join-split slash raw) in
    rw same (
      ground arith,
      any_char-strip (is_char b'\\') (is_char b'/') dirty
          (any_char-replace_char backslash slash (trim (text_or value "")) refl),
      ground arith,
      ground arith,
      ground arith,
    )
