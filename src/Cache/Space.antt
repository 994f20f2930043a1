-- ===== src/Cache/Space.antt =====
-- utils/cache/backend_redis.c: how much memory redis says that it uses.
use tangle_accelerator.Base.{
  ℤ, pos, negsuc, Bool, true, false, not, ◌&&◌, ◌||◌, Option, none, some, Bytes, [], ◌∷◌, codes,
  length, drop, ◌==◌, mem_eq, if◌then◌else◌,
}
use tangle_accelerator.Errors.{cache_off, code}
use tangle_accelerator.Config.Numbers.{strtol, is_int}

abbrev pub size_field : Bytes
size_field = codes "used_memory:"

-- The text from the first place on where `needle` stands
abbrev pub strstr : Bytes → Bytes → Option Bytes
strstr [] needle = none
strstr (c ∷ s) needle =
    let rest = strstr s needle in
    if mem_eq (length needle) (c ∷ s) needle then some (c ∷ s) else rest

-- strtok of a text that does not begin with a line's end
abbrev pub first_line : Bytes → Bytes
first_line [] = []
first_line (c ∷ s) = if c == b'\n' then [] else c ∷ first_line s

-- `errno` says whether it is ERANGE before. A reply without the field, of which the code reads NULL, gives `none`.
abbrev pub size_of : Bool → Option Bytes → Option ℤ
size_of errno none = none
size_of errno (some str) =
    let r = strtol (drop (length size_field) (first_line str)) in
    some (if r.moved && not (errno || r.range) && is_int r.value then r.value else negsuc 0)

-- The reply to INFO, where it is a string
unfoldable pub redis_occupied_space : Bool → Option Bytes → Option ℤ
redis_occupied_space errno none = some (negsuc 0)
redis_occupied_space errno (some str) = size_of errno (strstr str size_field)

unfoldable pub cache_occupied_space : Bool → Bool → Option Bytes → Option ℤ
cache_occupied_space false errno reply = some (pos (code cache_off))
cache_occupied_space true errno reply = redis_occupied_space errno reply
