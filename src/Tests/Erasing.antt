-- ===== src/Tests/Erasing.antt =====
-- `erase_all_copy` of one dash, and an instance for the texts of uuids.
use Prim.Native.String.{String, [], ◌∷◌}
use libklio.Prelude.{◌≡◌, refl, nat_eq, if◌then◌else◌}
use libklio.Sensor.{Library}
use libklio.Msg.Uuid.{IsErasing, is_dash, format_uuid_string, erase-format_uuid_string}
use libklio.Tests.Backends.{library}

abbrev erase_dashes : String → String
erase_dashes [] = []
erase_dashes (c ∷ text) = let rest = erase_dashes text in if is_dash c then rest else c ∷ rest

abbrev erasing_library : Library
erasing_library = record library { erase_all_copy = λ text part. erase_dashes text }

erasing_library-IsErasing : IsErasing erasing_library
erasing_library-IsErasing = record { nil = refl; cons = λ c text. refl }

erase-format_uuid_string_example :
    (format_uuid_string "00112233445566778899aabbccddeeff" ≡ "00112233-4455-6677-8899-aabbccddeeff")
    × (erase_dashes "00112233-4455-6677-8899-aabbccddeeff" ≡ "00112233445566778899aabbccddeeff")
erase-format_uuid_string_example =
    erase-format_uuid_string erasing_library erasing_library-IsErasing "00112233" "4455" "6677"
      "8899" "a" "abbccddeeff" refl refl refl refl refl

format_uuid_string_test :
    format_uuid_string "00112233445566778899aabbccddeeff" ≡ "00112233-4455-6677-8899-aabbccddeeff"
unfolding format_uuid_string
format_uuid_string_test = refl
