-- ===== src/Candidate.antt =====
-- src/candidate.cpp, and the candidates of src/webagent.cpp: how one is read from a line and how
-- the lines of the local candidates are written.
-- libnice is not part of the repository; `Nice` has what is used of it.
pub mod Overflow
pub mod Lines
use media_gateway_v4_7_1_sde.Base.{
  ℕ, ◌-◌, ◌+◌, ◌*◌, ◌%◌, ◌^◌, Bool, true, false, ◌&&◌, ◌||◌, Option, none, some, List, [], ◌∷◌,
  ◌++◌, ltb, leb, ◌==◌, if◌then◌else◌, length, Text, codes, ℤ, pos, negsuc, wrap, Run, ok, fault,
  buffer_overflow, ◌>>=◌,
}
use media_gateway_v4_7_1_sde.Text.{
  is_prefix, contains, is_space, skip_spaces, is_digit, digits_value, atoi, int_to_string,
}
use media_gateway_v4_7_1_sde.Base.{drop}

-- `NiceCandidateType`
pub data Kind : Type 0 where
  host server_reflexive peer_reflexive relayed : Kind

-- The size of the array `foundation` of a `NiceCandidate`, what `nice_candidate_new` puts into the
-- fields that a line may leave out, and what `%d` of `sscanf` stores for a number that no `int`
-- holds, which C leaves open.
pub record Nice : Type 0 where
  pub foundation_size : ℕ
  pub new_foundation : Text
  pub new_component : ℕ
  pub new_priority : ℕ
  pub out_of_range : Text → ℤ

-- `NiceCandidate`, as the constructor from a line leaves it. `ip` and `port` are what is passed to
-- `nice_address_set_from_string` and `nice_address_set_port`; `none` is a variable without a value.
-- The transport is UDP on both branches of the code.
pub record Candidate : Type 0 where
  pub kind : Kind
  pub foundation : Text
  pub component_id : ℕ
  pub priority : ℕ
  pub ip : Option Text
  pub port : Option ℤ

unfoldable pub kind_of : Text → Kind
kind_of str =
    if contains str (codes "host")
    then host
    else if contains str (codes "srflx")
    then server_reflexive
    else if contains str (codes "prflx")
    then peer_reflexive
    else if contains str (codes "relayed")
    then relayed
    else host

-- The characters up to the next white space, and the others.
unfoldable pub word : Text → Text × Text
word [] = ([], [])
word (c ∷ cs) = let (w, rest) = word cs in if is_space c then ([], c ∷ cs) else (c ∷ w, rest)

unfoldable pub digits : Text → Text × Text
digits [] = ([], [])
digits (c ∷ cs) = let (w, rest) = digits cs in if is_digit c then (c ∷ w, rest) else ([], c ∷ cs)

-- A field of no characters ends the scan.
unfoldable pub some_field : Text → Text × Text → Option (Text × Text)
some_field sign ([], rest) = none
some_field sign (c ∷ cs, rest) = some (sign ++ c ∷ cs, rest)

-- The conversions `%s` and `%d` of `sscanf`; `none` ends the scan.
unfoldable pub scan_word : Text → Option (Text × Text)
scan_word s = some_field [] (word (skip_spaces s))

unfoldable pub sign_of : Text → Text × Text
sign_of [] = ([], [])
sign_of (c ∷ cs) = if c == b'-' || c == b'+' then (c ∷ [], cs) else ([], c ∷ cs)

unfoldable pub scan_int : Text → Option (Text × Text)
scan_int s = let (sign, rest) = sign_of (skip_spaces s) in some_field sign (digits rest)

pub data Conversion : Type 0 where
  percent_s percent_d : Conversion

unfoldable pub scan_one : Conversion → Text → Option (Text × Text)
scan_one percent_s s = scan_word s
scan_one percent_d s = scan_int s

-- The texts of the conversions that `sscanf` makes, in order.
unfoldable pub scan_fields : List Conversion → Text → List Text
scan_fields [] s = []
scan_fields (v ∷ vs) s = elim (scan_one v s) [
  | none ↦ []
  | some (field, rest) ↦ field ∷ scan_fields vs rest
]

abbrev pub candidate_format : List Conversion
candidate_format =
    percent_s ∷ percent_d ∷ percent_s ∷ percent_d ∷ percent_s ∷ percent_d ∷ percent_s ∷ []

abbrev pub candidate_prefix : Text
candidate_prefix = codes "a=candidate:"

-- `sscanf(str, "a=candidate:%s %d %s %d %s %d %s", ...)`
unfoldable pub candidate_fields : Text → List Text
unfolding scan_fields
candidate_fields str =
    if is_prefix candidate_prefix str
    then scan_fields candidate_format (drop (length candidate_prefix) str)
    else []

unfoldable pub field : List Text → ℕ → Option Text
field [] i = none
field (x ∷ xs) ℕ.zero = some x
field (x ∷ xs) (ℕ.suc i) = field xs i

-- `%s` writes the word and a NUL into an array of `size` bytes.
unfoldable pub fits : ℕ → Option Text → Bool
fits size none = true
fits size (some w) = ltb (length w) size

abbrev get_word : Option Text → Text → Text
get_word none old = old
get_word (some w) old = w

-- Whether an `int` holds the number that `%d` reads.
unfoldable pub is_int : Text → Bool
is_int [] = true
is_int (c ∷ cs) =
    if c == b'-'
    then leb (digits_value 0 cs) (2 ^ 31)
    else if c == b'+'
    then ltb (digits_value 0 cs) (2 ^ 31)
    else ltb (digits_value 0 (c ∷ cs)) (2 ^ 31)

module _ (nice : Nice) where
  -- The `int` that `%d` stores; `priority` and the component keep its 32 bits.
  unfoldable pub int_value : Text → ℤ
  unfolding is_int
  int_value w = if is_int w then atoi w else nice.out_of_range w

  abbrev get_unsigned : Option Text → ℕ → ℕ
  get_unsigned none old = old
  get_unsigned (some w) old = wrap (2 ^ 32) (int_value w)

  abbrev get_int : Option Text → Option ℤ
  get_int none = none
  get_int (some w) = some (int_value w)

  unfoldable pub build : Text → List Text → Run Candidate
  unfolding field fits int_value
  build str f =
      if fits nice.foundation_size (field f 0)
        && (fits 32 (field f 2) && (fits 16 (field f 4) && fits 128 (field f 6)))
      then ok (record {
        kind = kind_of str;
        foundation = get_word (field f 0) nice.new_foundation;
        component_id = get_unsigned (field f 1) nice.new_component;
        priority = get_unsigned (field f 3) nice.new_priority;
        ip = field f 4;
        port = get_int (field f 5);
      })
      else fault buffer_overflow

  -- `Candidate::Candidate(const char str[])`
  unfoldable pub new_candidate : Text → Run Candidate
  unfolding build
  new_candidate str = build str (candidate_fields str)

-- A local candidate as libnice reports it: `address` is what `nice_address_to_string` writes.
pub record LocalCandidate : Type 0 where
  pub local_foundation : Text
  pub local_component : ℕ
  pub is_udp : Bool
  pub local_priority : ℕ
  pub address : Text
  pub local_port : ℕ
  pub local_kind : Kind

unfoldable pub kind_name : Kind → Text
kind_name host = codes "host "
kind_name server_reflexive = codes "srflx "
kind_name peer_reflexive = codes "prflx "
kind_name relayed = codes "relayed "

-- `sprintf(s, "%d ", n)` of an unsigned number below 2 ^ 32.
unfoldable pub number_field : ℕ → Text
unfolding int_to_string
number_field n =
    int_to_string (if ltb n (2 ^ 31) then pos n else negsuc (2 ^ 32 - n - 1)) ++ codes " "

-- The line of one candidate in `candidateGatheringDoneCallback`.
unfoldable pub candidate_line : LocalCandidate → Text
unfolding number_field kind_name
candidate_line c =
    candidate_prefix
    ++ (c.local_foundation
        ++ (codes " "
            ++ (number_field c.local_component
                ++ ((if c.is_udp then codes "udp " else [])
                    ++ (number_field c.local_priority
                        ++ (c.address
                            ++ (codes " "
                                ++ (number_field c.local_port
                                    ++ (codes "typ "
                                        ++ (kind_name c.local_kind
                                            ++ codes "generation 0\r\n"))))))))))

-- The loop over the candidates of the two components: those with a `:` in the address are skipped.
unfoldable pub candidate_lines : List LocalCandidate → List Text
unfolding candidate_line
candidate_lines [] = []
candidate_lines (c ∷ cs) =
    let rest = candidate_lines cs in
    if contains c.address (codes ":") then rest else candidate_line c ∷ rest
