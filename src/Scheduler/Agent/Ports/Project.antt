-- ===== src/Scheduler/Agent/Ports/Project.antt =====
-- persys-scheduler/internal/scheduler/agent_grpc.go: what a normalised project name is made of.
use Prim.Native.Char.{Char}
use Prim.Native.String.{char_at}
use persys_cloud.Prelude.{
  String, ◌≡◌, refl, true, false, ◌&&◌, if◌then◌else◌, ◌==◌, inl, inr, Bool-cases, arith,
}
use persys_cloud.Text.{trim_space, to_lower}
use persys_cloud.Scheduler.Agent.Ports.{
  project_char, is_dash, dashed, trim_left_dash, trim_right_dash, normalize_project_name,
}

-- Every character is a lower-case letter, a digit, a dash or an underscore.
abbrev pub Plain : String → Type 0
Plain String.[] = Unit
Plain (String.◌∷◌ c s) = (project_char c ≡ true) × Plain s

-- The first character is no dash.
abbrev pub StartsUndashed : String → Type 0
StartsUndashed String.[] = Unit
StartsUndashed (String.◌∷◌ c s) = is_dash c ≡ false

-- The last character is no dash.
abbrev pub EndsUndashed : String → Type 0
EndsUndashed String.[] = Unit
EndsUndashed (String.◌∷◌ c String.[]) = is_dash c ≡ false
EndsUndashed (String.◌∷◌ c (String.◌∷◌ d s)) = EndsUndashed (String.◌∷◌ d s)

dash-plain : project_char (char_at "-" 0) ≡ true
unfolding project_char
dash-plain = refl

chosen-plain : (c : Char) → project_char (if project_char c then c else char_at "-" 0) ≡ true
chosen-plain c = elim (Bool-cases (project_char c)) [ inl e ↦ rw e e | inr e ↦ rw e dash-plain ]

dashed-Plain : (s : String) → Plain (dashed s)
unfolding dashed
dashed-Plain String.[] = tt
dashed-Plain (String.◌∷◌ c s) = (chosen-plain c, dashed-Plain s)

trim_right_dash-Plain : (s : String) → Plain s → Plain (trim_right_dash s)
unfolding trim_right_dash
trim_right_dash-Plain String.[] h = tt
trim_right_dash-Plain (String.◌∷◌ c s) h =
    elim (Bool-cases (is_dash c && trim_right_dash s == "")) [
      | inl e ↦ rw e tt
      | inr e ↦ rw e (h.0, trim_right_dash-Plain s h.1)
    ]

trim_left_dash-Plain : (s : String) → Plain s → Plain (trim_left_dash s)
unfolding trim_left_dash
trim_left_dash-Plain String.[] h = tt
trim_left_dash-Plain (String.◌∷◌ c s) h = elim (Bool-cases (is_dash c)) [
  | inl e ↦ rw e (trim_left_dash-Plain s h.1)
  | inr e ↦ rw e h
]

trim_left_dash-StartsUndashed : (s : String) → StartsUndashed (trim_left_dash s)
unfolding trim_left_dash
trim_left_dash-StartsUndashed String.[] = tt
trim_left_dash-StartsUndashed (String.◌∷◌ c s) = elim (Bool-cases (is_dash c)) [
  | inl e ↦ rw e (trim_left_dash-StartsUndashed s)
  | inr e ↦ rw e e
]

EndsUndashed-tail : (c : Char) (s : String) → EndsUndashed (String.◌∷◌ c s) → EndsUndashed s
EndsUndashed-tail c String.[] h = tt
EndsUndashed-tail c (String.◌∷◌ d s) h = h

EndsUndashed-cons :
    (c : Char) (s : String)
    → EndsUndashed s
    → (is_dash c && s == "") ≡ false
    → EndsUndashed (String.◌∷◌ c s)
EndsUndashed-cons c String.[] h e = elim (Bool-cases (is_dash c)) [
  | inl d ↦ absurd (ground arith)
  | inr d ↦ d
]
EndsUndashed-cons c (String.◌∷◌ d s) h e = h

trim_right_dash-EndsUndashed : (s : String) → EndsUndashed (trim_right_dash s)
unfolding trim_right_dash
trim_right_dash-EndsUndashed String.[] = tt
trim_right_dash-EndsUndashed (String.◌∷◌ c s) =
    elim (Bool-cases (is_dash c && trim_right_dash s == "")) [
      | inl e ↦ rw e tt
      | inr e ↦ rw e (EndsUndashed-cons c (trim_right_dash s) (trim_right_dash-EndsUndashed s) e)
    ]

trim_left_dash-EndsUndashed : (s : String) → EndsUndashed s → EndsUndashed (trim_left_dash s)
unfolding trim_left_dash
trim_left_dash-EndsUndashed String.[] h = tt
trim_left_dash-EndsUndashed (String.◌∷◌ c s) h = elim (Bool-cases (is_dash c)) [
  | inl e ↦ rw e (trim_left_dash-EndsUndashed s (EndsUndashed-tail c s h))
  | inr e ↦ rw e h
]

-- What a name that compose takes is made of.
pub record IsProjectName (s : String) : Type 0 where
  pub plain : Plain s
  pub starts : StartsUndashed s
  pub ends : EndsUndashed s
  pub nonempty : (s == "") ≡ false

workload-IsProjectName : IsProjectName "workload"
unfolding project_char is_dash
workload-IsProjectName = record {
  plain = (refl, (refl, (refl, (refl, (refl, (refl, (refl, (refl, tt))))))));
  starts = refl;
  ends = refl;
  nonempty = refl;
}

-- What normalizeProjectName makes of a name, the project name that is sent for a compose workload
-- without one of its own, is never empty, holds only lower-case letters, digits, dashes and
-- underscores, and neither starts nor ends with a dash.
pub normalize_project_name-IsProjectName : (s : String) → IsProjectName (normalize_project_name s)
unfolding normalize_project_name
normalize_project_name-IsProjectName s =
    let name = trim_space (to_lower s) in
    let cut = trim_right_dash (dashed name) in
    let out = trim_left_dash cut in
    elim (Bool-cases (name == "")) [
      | inl e ↦ rw e workload-IsProjectName
      | inr e ↦ elim (Bool-cases (out == "")) [
        | inl d ↦ rw (e, d) workload-IsProjectName
        | inr d ↦
            rw (e, d)
              (record {
                plain =
                    trim_left_dash-Plain cut
                      (trim_right_dash-Plain (dashed name) (dashed-Plain name));
                starts = trim_left_dash-StartsUndashed cut;
                ends = trim_left_dash-EndsUndashed cut (trim_right_dash-EndsUndashed (dashed name));
                nonempty = d;
              })
      ]
    ]
