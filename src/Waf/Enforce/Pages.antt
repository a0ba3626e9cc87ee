-- ===== src/Waf/Enforce/Pages.antt =====
-- The pages of `writeBlock`, from the rule.
use peretum.Prelude.Bytes.{Bytes, codes, equal}
use peretum.Prelude.Text.{is_empty}
use peretum.Prelude.{ℕ, ◌≡◌, refl, inl, inr, ◌||◌, [], ◌∷◌, ◌==◌, arith, if◌then◌else◌, Bool-cases}
use peretum.Waf.Enforce.{
  Response, block_config, write_block, refused, over_limit, default_message, limited_status,
  limited_message,
}
use peretum.Waf.Policy.{Rule}

-- The answer to a request that a rule denies: the status and the message of the rule, or 403 and the
-- default message.
abbrev pub block_page : Rule → Response
block_page rule = record {
  headers =
      (codes "Content-Type", codes "text/plain; charset=utf-8")
      ∷ (codes "X-WAF-Block", codes "true")
      ∷ [];
  status = if rule.code == 0 then 403 else rule.code;
  text = if is_empty rule.message then codes "Request blocked by WAF" else rule.message;
}

-- The answer to a request over the limit of a rule: 429 and another message, also where the rule
-- asks for 403 or spells the default message out.
abbrev pub limit_page : Rule → Response
limit_page rule = record {
  headers =
      (codes "Retry-After", codes "1")
      ∷ (codes "Content-Type", codes "text/plain; charset=utf-8")
      ∷ (codes "X-WAF-Block", codes "true")
      ∷ [];
  status = if rule.code == 0 || rule.code == 403 then 429 else rule.code;
  text =
      if is_empty rule.message || equal rule.message (codes "Request blocked by WAF")
      then codes "Too Many Requests"
      else rule.message;
}

denied_status_lem :
    (code : ℕ)
    → (if (if code == 0 then 403 else code) == 0 then 403 else if code == 0 then 403 else code)
      ≡ (if code == 0 then 403 else code)
denied_status_lem code = ground arith

denied_message_lem :
    (message : Bytes)
    → (if is_empty (if is_empty message then default_message else message)
        then default_message
        else if is_empty message
        then default_message
        else message)
      ≡ (if is_empty message then default_message else message)
denied_message_lem message = elim (Bool-cases (is_empty message)) [
  | inl e ↦ rw e refl
  | inr e ↦ rw e (rw e refl)
]

pub refused_page : (rule : Rule) → refused rule ≡ block_page rule
unfolding block_config write_block
refused_page rule = λ i. record {
  headers = (block_page rule).headers;
  status = denied_status_lem rule.code i;
  text = denied_message_lem rule.message i;
}

limited_status_lem :
    (code : ℕ)
    → (if limited_status (if code == 0 then 403 else code) == 0
        then 403
        else limited_status (if code == 0 then 403 else code))
      ≡ (if code == 0 || code == 403 then 429 else code)
limited_status_lem code = ground arith

limited_message_lem :
    (message : Bytes)
    → (if is_empty (limited_message (if is_empty message then default_message else message))
        then default_message
        else limited_message (if is_empty message then default_message else message))
      ≡ (if is_empty message || equal message default_message
          then codes "Too Many Requests"
          else message)
unfolding equal
limited_message_lem message = elim (Bool-cases (is_empty message)) [
  | inl e ↦ rw e refl
  | inr e ↦ elim (Bool-cases (equal message default_message)) [
    | inl m ↦ rw (e, m) refl
    | inr m ↦ rw (e, m) (rw e refl)
  ]
]

pub over_limit_page : (rule : Rule) → over_limit rule ≡ limit_page rule
unfolding block_config write_block
over_limit_page rule = λ i. record {
  headers = (limit_page rule).headers;
  status = limited_status_lem rule.code i;
  text = limited_message_lem rule.message i;
}
