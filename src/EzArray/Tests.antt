-- ===== src/EzArray/Tests.antt =====
-- The array at concrete inputs.
use mathlib.Core.Option.{some-injective}
use multithreaded_c_server.Common.{
  ◌-◌, ◌≤◌, ◌<◌, ◌≡◌, refl, sym, ap, ◌∙◌, ◌⊎◌, some, [], ◌∷◌, ◌++◌, arith, length, length-append,
  length-take, length-replicate, replicate, take, Ptr, Realloc, ReallocLaw, success, failure,
}
use multithreaded_c_server.Compact.{kept, NoneKept}
use multithreaded_c_server.EzArray.{EzArray, push, set_at, get_at, compact, differs, grown}
use multithreaded_c_server.EzArray.Contents.{IsValid, contents, spare}
use multithreaded_c_server.EzArray.Push.{Pushes, push_lem}
use multithreaded_c_server.EzArray.Access.{set_at_lem, get_at_lem, compact_lem}

-- Three items, one of them NULL, and a spare slot that holds 9.
abbrev holed : EzArray
holed = record { pp_buf = 5 ∷ 0 ∷ 6 ∷ 9 ∷ []; num_items = 3; max_items = 4 }

abbrev full : EzArray
full = record { pp_buf = 5 ∷ 6 ∷ []; num_items = 2; max_items = 2 }

holed-IsValid : IsValid holed
holed-IsValid = omega arith

full-IsValid : IsValid full
full-IsValid = omega arith

-- A realloc that always has memory, with 9 in the new slots.
abbrev larger : Realloc Ptr
larger b n = some (take n b ++ replicate (n - length b) 9)

larger-ReallocLaw : ReallocLaw larger
larger-ReallocLaw b n b' e = (
  replicate (n - length b) 9,
  sym (some-injective _ _ e),
  ap length (sym (some-injective _ _ e))
      ∙ omega (
        arith,
        length-append (take n b) (replicate (n - length b) 9),
        length-take n b,
        length-replicate {A = Ptr} (n - length b) 9,
      ),
)

push-full :
    push larger (some full) 7
    ≡ some (success, some (record { pp_buf = 5 ∷ 6 ∷ 7 ∷ 9 ∷ []; num_items = 3; max_items = 4 }))
unfolding push grown
push-full = refl

-- What realloc left in a spare slot comes back as an item.
compact-holed :
    compact (some holed) 0
    ≡ some (success, some (record { pp_buf = 5 ∷ 6 ∷ 9 ∷ 0 ∷ []; num_items = 3; max_items = 4 }))
unfolding compact multithreaded_c_server.Compact.compact_loop
compact-holed = refl

push_lem_example : Pushes larger full 7
push_lem_example = push_lem larger 7 larger-ReallocLaw full-IsValid

set_at_lem_example :
    ((1 < 3)
      × ((a' : EzArray) × (set_at (some holed) 1 8 ≡ some (success, some a'))
          × IsValid a'
          × (contents a' ≡ 5 ∷ 8 ∷ 6 ∷ [])))
    ⊎ ((3 ≤ 1) × (set_at (some holed) 1 8 ≡ some (failure, some holed)))
set_at_lem_example = set_at_lem 1 8 holed-IsValid

get_at_lem_example :
    ((3 < 4) × (get_at (some holed) 3 (some 1) ≡ some (success, some 9)))
    ⊎ ((4 ≤ 3) × (get_at (some holed) 3 (some 1) ≡ some (failure, some 1)))
get_at_lem_example = get_at_lem 3 1 holed-IsValid

compact_lem_example :
    (a' : EzArray) × (compact (some holed) 0 ≡ some (success, some a'))
    × IsValid a'
    × (contents a' ≡ 5 ∷ 6 ∷ 9 ∷ [])
    × NoneKept (differs 0) (spare a')
    × (a'.max_items ≡ 4)
compact_lem_example = compact_lem 0 holed-IsValid
