-- ===== src/Proto/Types/Names.antt =====
-- Command types through their stored names.
use team_x.Base.{
  none, arith, ◌≡◌, refl, Bool, false, zero, suc, ◌++◌, Text, codes, text_eq, if◌then◌else◌, ltb,
  pos, negsuc,
}
use team_x.Proto.Types.{CommandType, unspecified, known_name, command_type_name, command_type_value}

-- A type that has a generated name.
abbrev pub is_known : CommandType → Bool
is_known (pos n) = ltb n 8
is_known (negsuc n) = false

value-unknown : (t : Text) → command_type_value (codes "COMMAND_TYPE_UNSPECIFIED_" ++ t) ≡ pos 0
unfolding command_type_value text_eq
value-unknown t = refl

-- A type with a generated name is read back from its stored name; any other type is read back as
-- unspecified.
pub command_type_value-command_type_name :
    (t : CommandType)
    → command_type_value (command_type_name t) ≡ (if is_known t then t else unspecified)
unfolding command_type_value command_type_name text_eq
command_type_value-command_type_name (negsuc n) = refl
command_type_value-command_type_name (pos zero) = unfold known_name in refl
command_type_value-command_type_name (pos (suc zero)) = unfold known_name in refl
command_type_value-command_type_name (pos (suc (suc zero))) = unfold known_name in refl
command_type_value-command_type_name (pos (suc (suc (suc zero)))) = unfold known_name in refl
command_type_value-command_type_name (pos (suc (suc (suc (suc zero))))) = unfold known_name in refl
command_type_value-command_type_name (pos (suc (suc (suc (suc (suc zero)))))) =
    unfold known_name in refl
command_type_value-command_type_name (pos (suc (suc (suc (suc (suc (suc zero))))))) =
    unfold known_name in refl
command_type_value-command_type_name (pos (suc (suc (suc (suc (suc (suc (suc zero)))))))) =
    unfold known_name in refl
command_type_value-command_type_name (pos (suc (suc (suc (suc (suc (suc (suc (suc n))))))))) =
    rw (no_name, large) refl
  where
    no_name : known_name (suc (suc (suc (suc (suc (suc (suc (suc n)))))))) ≡ none
    no_name = unfold known_name in ground arith

    large : ltb (suc (suc (suc (suc (suc (suc (suc (suc n)))))))) 8 ≡ false
    large = ground arith
