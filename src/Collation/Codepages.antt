-- ===== src/Collation/Codepages.antt =====
-- lib/collation.js: the codepages of the language ids and of the sort ids.
use tedious.Prelude.{ℕ, List, [], ◌∷◌}

pub data Codepage : Type 0 where
  cp1250 cp1251 cp1252 cp1253 cp1254 cp1255 cp1256 cp1257 : Codepage
  cp1258 cp437 cp850 cp874 cp932 cp936 cp949 cp950 utf8 : Codepage

-- By language id: the low 16 bits of the LCID.
unfoldable pub codepage_by_language_id : List (ℕ × Codepage)
codepage_by_language_id =
    (0x0401, cp1256)
    ∷ (0x0404, cp950)
    ∷ (0x0405, cp1250)
    ∷ (0x0406, cp1252)
    ∷ (0x0408, cp1253)
    ∷ (0x0409, cp1252)
    ∷ (0x040a, cp1252)
    ∷ (0x040b, cp1252)
    ∷ (0x040c, cp1252)
    ∷ (0x040d, cp1255)
    ∷ (0x040e, cp1250)
    ∷ (0x040f, cp1252)
    ∷ (0x0411, cp932)
    ∷ (0x0412, cp949)
    ∷ (0x0414, cp1252)
    ∷ (0x0415, cp1250)
    ∷ (0x0417, cp1252)
    ∷ (0x0418, cp1250)
    ∷ (0x0419, cp1251)
    ∷ (0x041a, cp1250)
    ∷ (0x041b, cp1250)
    ∷ (0x041c, cp1250)
    ∷ (0x041e, cp874)
    ∷ (0x041f, cp1254)
    ∷ (0x0420, cp1256)
    ∷ (0x0422, cp1251)
    ∷ (0x0424, cp1250)
    ∷ (0x0425, cp1257)
    ∷ (0x0426, cp1257)
    ∷ (0x0427, cp1257)
    ∷ (0x0429, cp1256)
    ∷ (0x042a, cp1258)
    ∷ (0x042c, cp1254)
    ∷ (0x042e, cp1252)
    ∷ (0x042f, cp1251)
    ∷ (0x043b, cp1252)
    ∷ (0x043f, cp1251)
    ∷ (0x0442, cp1250)
    ∷ (0x0443, cp1254)
    ∷ (0x0444, cp1251)
    ∷ (0x0452, cp1252)
    ∷ (0x0462, cp1252)
    ∷ (0x046d, cp1251)
    ∷ (0x047a, cp1252)
    ∷ (0x047c, cp1252)
    ∷ (0x047e, cp1252)
    ∷ (0x0480, cp1256)
    ∷ (0x0483, cp1252)
    ∷ (0x0485, cp1251)
    ∷ (0x048c, cp1256)
    ∷ (0x0804, cp936)
    ∷ (0x081a, cp1250)
    ∷ (0x082c, cp1251)
    ∷ (0x083b, cp1252)
    ∷ (0x085f, cp1252)
    ∷ (0x0c04, cp950)
    ∷ (0x0c0a, cp1252)
    ∷ (0x0c1a, cp1251)
    ∷ (0x1404, cp950)
    ∷ (0x141a, cp1250)
    ∷ (0x201a, cp1251)
    ∷ (0x0407, cp1252)
    ∷ (0x0437, cp1252)
    ∷ []

-- By sort id, of the collations whose names begin with SQL.
unfoldable pub codepage_by_sort_id : List (ℕ × Codepage)
codepage_by_sort_id =
    (30, cp437)
    ∷ (31, cp437)
    ∷ (32, cp437)
    ∷ (33, cp437)
    ∷ (34, cp437)
    ∷ (40, cp850)
    ∷ (41, cp850)
    ∷ (42, cp850)
    ∷ (43, cp850)
    ∷ (44, cp850)
    ∷ (49, cp850)
    ∷ (51, cp1252)
    ∷ (52, cp1252)
    ∷ (53, cp1252)
    ∷ (54, cp1252)
    ∷ (55, cp850)
    ∷ (56, cp850)
    ∷ (57, cp850)
    ∷ (58, cp850)
    ∷ (59, cp850)
    ∷ (60, cp850)
    ∷ (61, cp850)
    ∷ (80, cp1250)
    ∷ (81, cp1250)
    ∷ (82, cp1250)
    ∷ (83, cp1250)
    ∷ (84, cp1250)
    ∷ (85, cp1250)
    ∷ (86, cp1250)
    ∷ (87, cp1250)
    ∷ (88, cp1250)
    ∷ (89, cp1250)
    ∷ (90, cp1250)
    ∷ (91, cp1250)
    ∷ (92, cp1250)
    ∷ (93, cp1250)
    ∷ (94, cp1250)
    ∷ (95, cp1250)
    ∷ (96, cp1250)
    ∷ (104, cp1251)
    ∷ (105, cp1251)
    ∷ (106, cp1251)
    ∷ (107, cp1251)
    ∷ (108, cp1251)
    ∷ (112, cp1253)
    ∷ (113, cp1253)
    ∷ (114, cp1253)
    ∷ (120, cp1253)
    ∷ (121, cp1253)
    ∷ (122, cp1253)
    ∷ (124, cp1253)
    ∷ (128, cp1254)
    ∷ (129, cp1254)
    ∷ (130, cp1254)
    ∷ (136, cp1255)
    ∷ (137, cp1255)
    ∷ (138, cp1255)
    ∷ (144, cp1256)
    ∷ (145, cp1256)
    ∷ (146, cp1256)
    ∷ (152, cp1257)
    ∷ (153, cp1257)
    ∷ (154, cp1257)
    ∷ (155, cp1257)
    ∷ (156, cp1257)
    ∷ (157, cp1257)
    ∷ (158, cp1257)
    ∷ (159, cp1257)
    ∷ (160, cp1257)
    ∷ (183, cp1252)
    ∷ (184, cp1252)
    ∷ (185, cp1252)
    ∷ (186, cp1252)
    ∷ []
