-- ===== src/Tests/Stacks.antt =====
-- Witness stacks in their buffer.
use rust_riecoin.Base.{◌≡◌, true, some, [], ◌∷◌, ◌++◌}
use rust_riecoin.Primitives.Buffer.{little}
use rust_riecoin.Primitives.Witness.{push_slice, to_vec}
use rust_riecoin.Primitives.Witness.Layout.{layout}
use rust_riecoin.Primitives.Witness.Building.{push_slice-layout}
use rust_riecoin.Primitives.Witness.Reading.{to_vec-layout}
use rust_riecoin.Tests.Values.{stack, stack_fits}

push_slice-layout_example :
    push_slice little (layout little stack) (0xff ∷ [])
    ≡ some (layout little (stack ++ ((0xff ∷ []) ∷ [])))
push_slice-layout_example = push_slice-layout little stack (0xff ∷ []) stack_fits

to_vec-layout_example : to_vec little true (layout little stack) ≡ some stack
to_vec-layout_example = to_vec-layout little true stack stack_fits
