-- ===== src/CfgJson/Tests.antt =====
-- The readers at concrete configurations.
use gst_app.Prelude.{◌≡◌, ℤ, pos, negsuc, List, [], ◌∷◌, some, codes, arith}
use gst_app.CfgJson.{
  int, array, nil, cons, end, member, Members, get_ex, CfgArrStatus, cfg_get_int_array,
}
use gst_app.CfgJson.Laws.{ArrayRead, cfg_get_int_array-ArrayRead}

abbrev config : Members
config =
    member (codes "fps") (array (cons (int (pos 30)) (cons (int (negsuc 0)) nil)))
      (member (codes "dual") (int (pos 1)) end)

cfg_get_int_array-ArrayRead_example :
    (r : CfgArrStatus × List ℤ) × (cfg_get_int_array
        (some config)
        (some (codes "fps"))
        (some (pos 0 ∷ pos 0 ∷ []))
        2
      ≡ (r.0, some r.1))
    × ArrayRead (get_ex config (codes "fps")) (pos 0 ∷ pos 0 ∷ []) 2 r
cfg_get_int_array-ArrayRead_example =
    cfg_get_int_array-ArrayRead config (codes "fps") (pos 0 ∷ pos 0 ∷ []) 2 (omega arith)
