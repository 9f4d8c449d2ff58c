-- ===== src/Parser/Options/Sysfs.antt =====
-- What apply_camera_sysfs of parser.cpp writes.
use gst_app.Prelude.{
  ℕ, ◌/◌, ◌%◌, ◌<◌, ℤ, pos, ◌≡◌, ◌⊎◌, refl, ap, subst, ◌∙◌, true, Bool-cases, inl, inr, is_neg, All,
  false, List, [], ◌∷◌, ◌++◌, bit_and, bit_and_three, ◌==◌, ==_iff, passes, passes-at, arith,
}
use gst_app.Parser.Args.{CmdArg}
use gst_app.Parser.Options.{
  SysfsFile, enable_path_01, enable_path_23, rotate_path_01, rotate_path_23, sysfs_values,
  write_all, apply_camera_sysfs,
}

low_four_table : passes (λ byte. bit_and byte 15 == byte % 16) 256 ≡ true
unfolding passes
low_four_table = refl

bit_and_fifteen : (byte : ℕ) → byte < 256 → bit_and byte 15 ≡ byte % 16
bit_and_fifteen byte small =
    (==_iff (bit_and byte 15) (byte % 16)).0 (passes-at _ 256 byte small low_four_table)

-- The writes that are made are the first ones of the list; those before the last of them did not
-- fail, the last one gives the code, and nothing is left unless it failed.
pub record Written (answer : SysfsFile × ℕ → ℤ) (all : List (SysfsFile × ℕ))
    (r : ℤ × List (SysfsFile × ℕ)) : Type 0 where
  pub front : List (SysfsFile × ℕ)
  pub last : SysfsFile × ℕ
  pub left : List (SysfsFile × ℕ)
  pub made : r.1 ≡ front ++ (last ∷ [])
  pub in_order : all ≡ r.1 ++ left
  pub good : All (λ w. is_neg (answer w) ≡ false) front
  pub code : r.0 ≡ answer last
  pub outcome : (is_neg (answer last) ≡ true) ⊎ (left ≡ [])

write_all-Written :
    (answer : SysfsFile × ℕ → ℤ) (ret : ℤ) (w : SysfsFile × ℕ) (writes : List (SysfsFile × ℕ))
    → Written answer (w ∷ writes) (write_all answer ret (w ∷ writes))
unfolding write_all
write_all-Written answer ret w [] = elim (Bool-cases (is_neg (answer w))) [
  | inl bad ↦ rw bad (record {
    front = [];
    last = w;
    left = [];
    made = refl;
    in_order = refl;
    good = tt;
    code = refl;
    outcome = inl bad;
  })
  | inr good ↦ rw good (record {
    front = [];
    last = w;
    left = [];
    made = refl;
    in_order = refl;
    good = tt;
    code = refl;
    outcome = inr refl;
  })
]
write_all-Written answer ret w (next ∷ writes) =
    let rest = write_all-Written answer (answer w) next writes in
    elim (Bool-cases (is_neg (answer w))) [
      | inl bad ↦ rw bad (record {
        front = [];
        last = w;
        left = next ∷ writes;
        made = refl;
        in_order = refl;
        good = tt;
        code = refl;
        outcome = inl bad;
      })
      | inr good ↦ rw good (record {
        front = w ∷ rest.front;
        last = rest.last;
        left = rest.left;
        made = ap (λ t. w ∷ t) rest.made;
        in_order = ap (λ t. w ∷ t) rest.in_order;
        good = (good, rest.good);
        code = rest.code;
        outcome = rest.outcome;
      })
    ]

in_four : (x : ℕ) → x < 256 → x / 16 % 16 ≡ x / 16
in_four x small = omega arith

masks_lem :
    (arg : CmdArg)
    → arg.ch_enable < 256
    → arg.ch_rotate < 256
    → sysfs_values arg ≡ (
        (enable_path_01, arg.ch_enable % 4)
        ∷ ((enable_path_23, arg.ch_enable / 4 % 4)
            ∷ ((rotate_path_01, arg.ch_rotate % 16) ∷ ((rotate_path_23, arg.ch_rotate / 16) ∷ []))))
unfolding sysfs_values
masks_lem arg on turn =
    let e1 = bit_and_three arg.ch_enable on in
    let e2 = bit_and_three (arg.ch_enable / 4) (omega arith) in
    let r1 = bit_and_fifteen arg.ch_rotate turn in
    let r2 = bit_and_fifteen (arg.ch_rotate / 16) (omega arith) in
    let r3 = in_four arg.ch_rotate turn in
    λ i.
      (enable_path_01, e1 i)
      ∷ ((enable_path_23, e2 i) ∷ ((rotate_path_01, r1 i) ∷ ((rotate_path_23, (r2 ∙ r3) i) ∷ [])))

-- The drivers are written in a fixed order up to the first write that fails, and all of them if
-- none does; the result is the code of the last write that is made, and no write before it failed; each mask that is written whole is the flags of two channels, and together they are the
-- low bits of the settings.
pub apply_camera_sysfs-Written :
    (answer : SysfsFile × ℕ → ℤ) (arg : CmdArg)
    → arg.ch_enable < 256
    → arg.ch_rotate < 256
    → Written answer
        ((enable_path_01, arg.ch_enable % 4)
          ∷ ((enable_path_23, arg.ch_enable / 4 % 4)
              ∷ ((rotate_path_01, arg.ch_rotate % 16)
                  ∷ ((rotate_path_23, arg.ch_rotate / 16) ∷ []))))
        (apply_camera_sysfs answer arg)
unfolding apply_camera_sysfs
apply_camera_sysfs-Written answer arg on turn =
    subst (λ t. Written answer t (write_all answer (pos 0) (sysfs_values arg)))
      (masks_lem arg on turn) (unfold sysfs_values in write_all-Written answer (pos 0) _ _)
