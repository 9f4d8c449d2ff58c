-- ===== src/Prepare/Transaction/Command.antt =====
-- The command of a domain fits the driver's buffer, so `prepare_worker_entry` never overflows it.
use gst_app.Prelude.{ℕ, ◌+◌, ◌≤◌, ◌<◌, arith, length, List, [], ◌∷◌, ◌++◌, length-append}
use gst_app.Prepare.Types.{PrepareTarget}
use gst_app.Prepare.Number.{decimal}
use gst_app.Prepare.Number.Decimal.{length-decimal}
use gst_app.Prepare.Transaction.{prepare_command}

length-field :
    (xs rest : List ℕ) (c limit : ℕ)
    → length xs ≤ 20
    → length rest ≤ limit
    → length (xs ++ (c ∷ rest)) ≤ limit + 21
length-field xs rest c limit hx hr = omega (arith, length-append xs (c ∷ rest))

-- The command of every target and generation is shorter than the worker's buffer of 128 bytes.
length-prepare_command :
    (generation : ℕ) (t : PrepareTarget) → length (prepare_command generation t) < 128
unfolding prepare_command
length-prepare_command generation t =
    let e = length-field (decimal t.enable) [] 10 0 (length-decimal t.enable).1 (omega arith) in
    let f = length-field (decimal t.fps) _ b' ' 21 (length-decimal t.fps).1 e in
    let h = length-field (decimal t.height) _ b' ' 42 (length-decimal t.height).1 f in
    let w = length-field (decimal t.width) _ b' ' 63 (length-decimal t.width).1 h in
    let g = length-field (decimal generation) _ b' ' 84 (length-decimal generation).1 w in
    omega (arith, g)
