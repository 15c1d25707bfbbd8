-- ===== src/Vkex/Exceptions.antt =====
-- tools/vkex: the exceptions of Python that the generator's code raises.
pub data Exception : Type 0 where
  attribute_error : Exception
  index_error : Exception
  key_error : Exception
  -- what evaluateDependency raises, a ParseException apart
  dependency_error : Exception
  recursion_error : Exception
  runtime_error : Exception
  type_error : Exception
  user_warning : Exception
