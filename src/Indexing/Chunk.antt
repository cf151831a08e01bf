-- ===== src/Indexing/Chunk.antt =====
-- backend/src/codesensei/indexing/chunker.py: `ChunkSpec`, and the language of a path.
use codesensei.Common.{
  ℕ, ◌+◌, not, ◌||◌, Option, none, some, List, [], ◌∷◌, Text, codes, text_eq, leb, ◌==◌, ◌&&◌,
  if◌then◌else◌, is_empty, keep,
}

pub record ChunkSpec : Type 0 where
  pub file_path : Text
  pub language : Text
  pub start_line : ℕ
  pub end_line : ℕ
  pub content : Text

-- `_EXT_TO_LANG`.
abbrev ext_to_lang : List (Text × Text)
ext_to_lang =
    (codes ".py", codes "python")
    ∷ (codes ".md", codes "markdown")
    ∷ (codes ".ts", codes "typescript")
    ∷ (codes ".tsx", codes "typescript")
    ∷ (codes ".js", codes "javascript")
    ∷ (codes ".jsx", codes "javascript")
    ∷ (codes ".java", codes "java")
    ∷ (codes ".go", codes "go")
    ∷ (codes ".rs", codes "rust")
    ∷ (codes ".cpp", codes "cpp")
    ∷ (codes ".cc", codes "cpp")
    ∷ (codes ".cxx", codes "cpp")
    ∷ (codes ".c", codes "c")
    ∷ (codes ".h", codes "c")
    ∷ (codes ".hpp", codes "cpp")
    ∷ (codes ".kt", codes "kotlin")
    ∷ (codes ".rb", codes "ruby")
    ∷ (codes ".php", codes "php")
    ∷ (codes ".sh", codes "shell")
    ∷ (codes ".bash", codes "shell")
    ∷ (codes ".yaml", codes "yaml")
    ∷ (codes ".yml", codes "yaml")
    ∷ (codes ".toml", codes "toml")
    ∷ (codes ".sql", codes "sql")
    ∷ []

-- `d.get(key)` of a dict with text keys.
pub get {ℓ} : {V : Type ℓ} → Text → List (Text × V) → Option V
unfolding text_eq
get key [] = none
get key ((k, v) ∷ d) = let rest = get key d in if text_eq k key then some v else rest

abbrev push_part : ℕ → List Text → List Text
push_part c [] = (c ∷ []) ∷ []
push_part c (p ∷ ps) = (c ∷ p) ∷ ps

-- A path cut at its slashes.
parts : Text → List Text
parts [] = [] ∷ []
parts (c ∷ s) = let rest = parts s in if c == b'/' then [] ∷ rest else push_part c rest

abbrev last_or_nil : List Text → Text
last_or_nil [] = []
last_or_nil (p ∷ []) = p
last_or_nil (p ∷ q ∷ ps) = last_or_nil (q ∷ ps)

-- `Path(s).name`: empty parts and "." are dropped.
path_name : Text → Text
unfolding parts text_eq
path_name s = last_or_nil (keep (λ p. not (is_empty p || text_eq p (codes "."))) (parts s))

after_last_dot : Text → Option Text
after_last_dot [] = none
after_last_dot (c ∷ s) = elim (after_last_dot s) [
  | some t ↦ some t
  | none ↦ if c == b'.' then some s else none
]

abbrev dotted : Option Text → Text
dotted none = []
dotted (some []) = []
dotted (some (c ∷ t)) = b'.' ∷ c ∷ t

-- `.suffix`: a dot that stands first or last in the name starts none.
suffix_of_name : Text → Text
unfolding after_last_dot
suffix_of_name [] = []
suffix_of_name (c ∷ s) = dotted (after_last_dot s)

-- `.lower()`, exact where the result is compared with ASCII text: beside A to Z only the Kelvin
-- sign becomes one ASCII letter.
pub lower : Text → Text
lower [] = []
lower (c ∷ s) =
    (if leb b'A' c && leb c b'Z' then c + 32 else if c == 0x212a then b'k' else c) ∷ lower s

abbrev or_other : Option Text → Text
or_other none = codes "other"
or_other (some l) = l

unfoldable pub language_for : Text → Text
unfolding get path_name suffix_of_name lower
language_for path = or_other (get (lower (suffix_of_name (path_name path))) ext_to_lang)
