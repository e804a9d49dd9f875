-- ===== src/Mib/Layout.antt =====
-- The last pass of `create_mib` in lib/snmpy/mibgen.py: every line is brought to the left, and those
-- that do not start a declaration are indented.
pub mod Indented
use snmpy.Shared.{
  Bool, List, [], false, if◌then◌else◌, map, not, replicate, true, ◌&&◌, ◌++◌, ◌==◌, ◌||◌, ◌∷◌,
}
use snmpy.Shared.Text.{Text, codes, is_space, lower, onto_head, starts_with, strip, text_eq}
use snmpy.Mibgen.Names.{key_prefix}

-- re.sub(r'^\s*(.*)$', r'\1', text, flags=re.MULTILINE): the white space at the start of a line goes,
-- with the empty lines that follow it. The flag tells whether a line starts here.
pub dedent_from : Bool → Text → Text
dedent_from start [] = []
dedent_from start (c ∷ s) =
    let skipped = dedent_from true s in
    let kept = c ∷ dedent_from (c == b'\n') s in if start && is_space c then skipped else kept

pub dedent : Text → Text
unfolding dedent_from
dedent s = dedent_from true s

-- text.splitlines(True)
pub split_lines : Text → List Text
split_lines [] = []
split_lines (c ∷ s) =
    let rest = split_lines s in
    if c == b'\n' || (c == b'\r' && not (starts_with s (b'\n' ∷ [])))
    then (c ∷ []) ∷ rest
    else onto_head c rest

pub ends_with : Text → Text → Bool
ends_with [] t = text_eq [] t
ends_with (c ∷ s) t = text_eq (c ∷ s) t || ends_with s t

-- re.match(r'(?:import|snmpy|end|})', line, flags=re.IGNORECASE)
pub is_head : Text → Bool
is_head line =
    starts_with (map lower line) (codes "import")
    || starts_with (map lower line) (map lower key_prefix)
    || starts_with (map lower line) (codes "end")
    || starts_with line (codes "}")

-- The loop over the lines; the flag is `sect`.
pub indent_lines : Bool → List Text → Text
indent_lines sect [] = []
indent_lines sect (line ∷ lines) =
    let in_list = sect && not (starts_with (strip line) (codes "}")) in
    let rest = indent_lines (in_list || ends_with (strip line) (codes "SEQUENCE {")) lines in
    if is_head line && not in_list then line ++ rest else replicate 4 b' ' ++ (line ++ rest)

pub layout : Text → Text
unfolding dedent split_lines indent_lines
layout text = indent_lines false (split_lines (dedent text))
