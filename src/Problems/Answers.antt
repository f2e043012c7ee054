-- ===== src/Problems/Answers.antt =====
-- src/platform/http/problem-details.filter.ts: how whatever a request ends with is answered.
